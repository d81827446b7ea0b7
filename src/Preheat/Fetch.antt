-- ===== src/Preheat/Fetch.antt =====
-- preheat/runner.go: one target is fetched, through the paths of this program. The HTTP client, the
-- JSON decoder and the command docker answer through a Transport; each error is a text.
use cncache_hub.Prelude.{
  ℕ, ◌+◌, ◌-◌, Bool, not, Option, none, some, List, [], ◌∷◌, ◌++◌, if◌then◌else◌, length, ◌==◌, ltb,
  take, drop,
}
use cncache_hub.Prelude.Int.{ℤ, pos, lt_ℤ}
use cncache_hub.Text.{Bytes, codes, same, is_empty, trim_space}
use cncache_hub.Proxy.Route.{itoa}
use cncache_hub.Preheat.Image.{
  Image, split_docker_image, manifest_path, docker_path_for, split_model_file, model_path,
}

-- An answer, with the bytes of its body that came, and whether the body broke off.
pub record HttpAnswer : Type 0 where
  pub status : ℕ
  pub body : Bytes
  pub breaks : Bool

-- What json.Unmarshal reads of a manifest: the digests, which are empty where a field is missing.
pub record Manifest : Type 0 where
  pub config : Bytes
  pub layers : List Bytes
  pub manifests : List Bytes

pub record Transport : Type 0 where
  pub get : Bytes → Option HttpAnswer
  pub parse_manifest : Bytes → Option Manifest
  pub parse_int : Bytes → Option ℤ
  pub has_docker : Bool
  pub docker_run : List Bytes → Option Bytes

-- The bytes added and the error, if there is one.
abbrev pub Outcome : Type 0
Outcome = ℕ × Option Bytes

-- The digests that are not empty.
unfoldable pub given_digests : List Bytes → List Bytes
given_digests [] = []
given_digests (d ∷ ds) = let rest = given_digests ds in if is_empty d then rest else d ∷ rest

-- extractDigests: the configuration's, the layers' and those of an index.
unfoldable pub extract_digests : Manifest → List Bytes
unfolding given_digests
extract_digests m =
    given_digests (m.config ∷ []) ++ (given_digests m.layers ++ given_digests m.manifests)

-- The loop over the blobs: it ends with the first one that is not answered by a 200; a body that
-- breaks off counts as far as it came.
unfoldable pub fetch_blobs : Transport → Bytes → Image → List Bytes → ℕ → Outcome
unfolding docker_path_for
fetch_blobs t base i [] total = (total, none)
fetch_blobs t base i (d ∷ ds) total =
    elim (t.get (base ++ docker_path_for i.registry i.name (codes "blobs") d)) [
      | none ↦ (total, some (codes "get blob " ++ take 20 d))
      | some a ↦
          if not (a.status == 200)
          then (
            total,
            some (codes "get blob " ++ take 20 d ++ codes ": HTTP " ++ itoa (pos a.status)),
          )
          else fetch_blobs t base i ds (total + length a.body)
    ]

abbrev pub fetch_digests : Transport → Bytes → Image → List Bytes → Outcome
fetch_digests t base i [] = (0, some (codes "manifest has no layers/config"))
fetch_digests t base i (d ∷ ds) = fetch_blobs t base i (d ∷ ds) 0

unfoldable pub fetch_image : Transport → Bytes → Image → Outcome
unfolding manifest_path extract_digests fetch_blobs
fetch_image t base i = elim (t.get (base ++ manifest_path i)) [
  | none ↦ (0, some (codes "get manifest"))
  | some a ↦
      if not (a.status == 200)
      then (0, some (codes "get manifest " ++ itoa (pos a.status) ++ take 1024 a.body))
      else if a.breaks
      then (0, some (codes "unexpected EOF"))
      else elim (t.parse_manifest a.body) [
        | none ↦ (0, some (codes "parse manifest"))
        | some m ↦ fetch_digests t base i (extract_digests m)
      ]
]

-- runDockerImage
unfoldable pub run_docker_image : Transport → Bytes → Bytes → Outcome
unfolding fetch_image split_docker_image
run_docker_image t base target = elim (split_docker_image target) [
  | none ↦ (0, some (codes "invalid docker image target"))
  | some i ↦ fetch_image t base i
]

abbrev pub docker_args : ℤ → List Bytes
docker_args app =
    codes "run"
    ∷ codes "--rm"
    ∷ codes "-v"
    ∷ (codes "/data/steamapps/" ++ itoa app ++ codes ":/steamapps")
    ∷ codes "cm2network/steamcmd:latest"
    ∷ codes "+login"
    ∷ codes "anonymous"
    ∷ codes "+app_update"
    ∷ itoa app
    ∷ codes "validate"
    ∷ codes "+quit"
    ∷ []

abbrev pub last_500 : Bytes → Bytes
last_500 s = if ltb 500 (length s) then codes "..." ++ drop (length s - 500) s else s

-- runSteamAppID; `docker_run` gives what a command that failed has written.
unfoldable pub run_steam_app_id : Transport → Bytes → Option Bytes
unfolding trim_space itoa
run_steam_app_id t target = elim (t.parse_int (trim_space target)) [
  | none ↦ some (codes "invalid steam app id: " ++ target)
  | some n ↦
      if not (lt_ℤ (pos 0) n)
      then some (codes "invalid steam app id: " ++ target)
      else if not t.has_docker
      then some (codes "docker not installed on this host")
      else elim (t.docker_run (docker_args n)) [
        | none ↦ none
        | some out ↦ some (codes "docker run failed: " ++ last_500 out)
      ]
]

-- runHuggingFaceModelFile
unfoldable pub run_hugging_face_model_file : Transport → Bytes → Bytes → Outcome
unfolding split_model_file model_path
run_hugging_face_model_file t base target = elim (split_model_file target) [
  | none ↦ (0, some (codes "bad huggingface_model target " ++ target))
  | some f ↦ elim (t.get (base ++ model_path f)) [
    | none ↦ (0, some (codes "get " ++ base ++ model_path f))
    | some a ↦
        if not (a.status == 200)
        then (0, some (codes "HTTP " ++ itoa (pos a.status) ++ take 512 a.body))
        else (length a.body, none)
  ]
]

-- The switch over the kinds of runItem.
unfoldable pub run_target : Transport → Bytes → Bytes → Bytes → Outcome
unfolding run_docker_image run_steam_app_id run_hugging_face_model_file
run_target t base kind target =
    if same kind (codes "docker")
    then run_docker_image t base target
    else if same kind (codes "steam")
    then (0, run_steam_app_id t target)
    else if same kind (codes "resource")
    then (0, some (codes "resource preheat not yet implemented (planned P2)"))
    else if same kind (codes "huggingface_model")
    then run_hugging_face_model_file t base target
    else (0, some (codes "unknown kind: " ++ kind))
