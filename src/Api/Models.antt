-- ===== src/Api/Models.antt =====
-- api/huggingface_handlers.go: the files of a model on Hugging Face, and the tasks that preheat them.
pub mod Patterns
use cncache_hub.Prelude.{
  ◌^◌, ℕ, zero, suc, ◌+◌, ◌*◌, ◌/◌, ◌%◌, Bool, true, false, not, ◌&&◌, ◌||◌, Option, none, some,
  List, [], ◌∷◌, ◌++◌, if◌then◌else◌, Result, ok, err, ◌>>=◌, any, length, take, drop, ltb, ◌==◌,
}
use cncache_hub.Prelude.Int.{ℤ, pos, pos_part, lt_ℤ}
use cncache_hub.Text.{
  Bytes, codes, same, is_empty, trim_space, has_prefix, has_suffix, trim_prefix, trim_suffix,
  contains, contains_any, index, last_index_byte, split,
}
use cncache_hub.Proxy.Resource.{hex_digit}
use cncache_hub.Storage.Preheats.{PreheatTask, PreheatTaskInput, Preheats, create_preheat_task}
use cncache_hub.Api.Requests.{
  ApiError, ApiReply, Handled, refuse, Decoded, decode_json_body, Caller, require_admin,
}
use cncache_hub.Api.Settings.{scaled}
use cncache_hub.Api.Globs.{HuggingFaceFile, filtered, compile_all, matching}

abbrev pub target_of : Bytes → Bytes → HuggingFaceFile → Bytes
target_of model revision f = model ++ codes "|" ++ revision ++ codes "|" ++ f.path

unfoldable pub targets_of : Bytes → Bytes → List HuggingFaceFile → List Bytes
targets_of model revision [] = []
targets_of model revision (f ∷ fs) = target_of model revision f ∷ targets_of model revision fs

unfoldable pub bytes_total : List HuggingFaceFile → ℕ
bytes_total [] = 0
bytes_total (f ∷ fs) = f.size + bytes_total fs

-- What the fetch of a tree comes to.
pub data TreeAnswer : Type 0 where
  tree : List HuggingFaceFile → TreeAnswer
  auth_required : TreeAnswer
  tree_failed : TreeAnswer

unfoldable pub tree_files : TreeAnswer → Handled (List HuggingFaceFile)
tree_files (tree fs) = ok fs
tree_files auth_required = refuse 403 (codes "hf_token_required")
tree_files tree_failed = refuse 502 (codes "hf_tree_fetch_failed")

abbrev pub is_file : HuggingFaceFile → Bool
is_file f = same f.kind (codes "file") && not (is_empty (trim_space f.path))

unfoldable pub only_files : List HuggingFaceFile → List HuggingFaceFile
unfolding trim_space same
only_files [] = []
only_files (f ∷ fs) = let rest = only_files fs in if is_file f then f ∷ rest else rest

abbrev pub or_main : Bytes → Bytes
or_main revision = if is_empty (trim_space revision) then codes "main" else trim_space revision

-- huggingFaceTreeHandler: what the path after /models/ names.
unfoldable pub tree_model : Bytes → Handled Bytes
unfolding has_suffix trim_suffix trim_prefix contains_any
tree_model rest =
    if not (has_suffix rest (codes "/tree"))
    then refuse 400 (codes "bad_path")
    else let model = trim_prefix (trim_suffix rest (codes "/tree")) (codes "/") in
      if is_empty model
      then refuse 400 (codes "missing_model_id")
      else if contains_any model (32 ∷ 9 ∷ 10 ∷ [])
      then refuse 400 (codes "invalid_model_id")
      else ok model

pub record TreeReply : Type 0 where
  pub model_id : Bytes
  pub revision : Bytes
  pub files : List HuggingFaceFile

unfoldable pub hugging_face_tree :
    (Bytes → Bytes → TreeAnswer) → Bytes → Bytes → Handled (ApiReply TreeReply)
unfolding tree_model tree_files only_files trim_space
hugging_face_tree fetch rest revision = tree_model rest >>= λ model.
    tree_files (fetch model (or_main revision)) >>= λ fs. ok (record {
      status = 200;
      body = record { model_id = model; revision = or_main revision; files = only_files fs };
    })

pub record PreheatRequest : Type 0 where
  pub model_id : Bytes
  pub revision : Bytes
  pub patterns : List Bytes
  pub max_files : ℤ
  pub name : Bytes
  pub force : Bool

pub record PreheatReply : Type 0 where
  pub task : Option PreheatTask
  pub total_files : ℕ
  pub filtered_files : ℕ
  pub skipped_files : ℕ
  pub truncated : Bool
  pub bytes_total : ℕ
  pub refused : Bool

abbrev pub or_1000 : ℤ → ℕ
or_1000 n = if lt_ℤ (pos 0) n then pos_part n else 1000

abbrev pub over_cap : Bool → Option ℤ → ℕ → Bool
over_cap force none bytes = false
over_cap force (some gb) bytes =
    not force && (lt_ℤ (pos 0) gb && lt_ℤ (scaled (2 ^ 30) gb) (pos bytes))

abbrev pub task_name : Bytes → Bytes → Bytes → Bytes
task_name name model revision =
    if is_empty (trim_space name)
    then codes "hf: " ++ model ++ codes " @ " ++ revision
    else trim_space name

abbrev pub PreheatOutcome : Type 0
PreheatOutcome = Preheats × Handled (ApiReply PreheatReply)

abbrev pub task_or : Preheats → PreheatReply → Option (Preheats × PreheatTask) → PreheatOutcome
task_or db reply none = (db, refuse 500 (codes "hf_preheat_create_failed"))
task_or db reply (some (db', task)) =
    (db', ok (record { status = 201; body = record reply { task = some task } }))

-- The part of the handler after the files are chosen.
unfoldable pub preheat_matched :
    ℕ
    → Preheats
    → PreheatRequest
    → Bytes
    → Bytes
    → Option ℤ
    → List HuggingFaceFile
    → PreheatReply
    → PreheatOutcome
unfolding targets_of create_preheat_task trim_space
preheat_matched now db r model revision cap [] reply = (db, refuse 400 (codes "no_files_matched"))
preheat_matched now db r model revision cap (f ∷ fs) reply =
    if over_cap r.force cap reply.bytes_total
    then (
      db,
      ok (record {
        status = 200;
        body = record reply { skipped_files = 0; truncated = false; refused = true };
      }),
    )
    else task_or db reply (
        create_preheat_task now db (record {
          name = task_name r.name model revision;
          kind = codes "huggingface_model";
          targets = targets_of model revision (f ∷ fs);
          cron_expression = [];
          max_retries = 0;
          enabled = true;
        }))

unfoldable pub preheat_files :
    ℕ → Preheats → PreheatRequest → Option ℤ → List HuggingFaceFile → PreheatOutcome
unfolding filtered bytes_total preheat_matched trim_space
preheat_files now db r cap files =
    let (matched, skipped) = filtered r.patterns files in
    let most = or_1000 r.max_files in
    let chosen = take most matched in
    preheat_matched now db r (trim_space r.model_id) (or_main r.revision) cap chosen (record {
      task = none;
      total_files = length files;
      filtered_files = length chosen;
      skipped_files = skipped;
      truncated = ltb most (length matched);
      bytes_total = bytes_total chosen;
      refused = false;
    })

abbrev pub request_or :
    ℕ → Preheats → Option ℤ → (Bytes → Bytes → TreeAnswer) → Handled PreheatRequest → PreheatOutcome
request_or now db cap fetch (err e) = (db, err e)
request_or now db cap fetch (ok r) =
    if is_empty (trim_space r.model_id)
    then (db, refuse 400 (codes "missing_model_id"))
    else elim (tree_files (fetch (trim_space r.model_id) (or_main r.revision))) [
      | err e ↦ (db, err e)
      | ok files ↦ preheat_files now db r cap files
    ]

-- huggingFacePreheatHandler, with the cacheTotalGb of the settings where they can be read.
unfoldable pub hugging_face_preheat :
    ℕ
    → Preheats
    → Option ℤ
    → (Bytes → Bytes → TreeAnswer)
    → Caller
    → Decoded PreheatRequest
    → PreheatOutcome
unfolding preheat_files tree_files trim_space require_admin decode_json_body
hugging_face_preheat now db cap fetch c body =
    request_or now db cap fetch (require_admin c >>= λ a. decode_json_body body)
