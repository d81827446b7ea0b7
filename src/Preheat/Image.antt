-- ===== src/Preheat/Image.antt =====
-- preheat/runner.go: what a target names. An image's target is split into a registry, a name and a
-- reference, which give the path that the proxy of this program is asked for.
pub mod Paths
pub mod Hosts
use cncache_hub.Prelude.{
  ℕ, suc, ◌+◌, Bool, true, false, not, ◌&&◌, ◌||◌, Option, none, some, List, [], ◌∷◌, ◌++◌,
  if◌then◌else◌, ◌==◌, ltb, take, drop, is_some,
}
use cncache_hub.Text.{
  Bytes, codes, same, is_empty, contains, index_byte, last_index_byte, has_prefix, trim_space,
}

-- The text up to a byte and the text after it.
abbrev pub before : Bytes → Option ℕ → Bytes
before s none = s
before s (some i) = take i s

abbrev pub after : Bytes → Option ℕ → Bytes
after s none = []
after s (some i) = drop (suc i) s

abbrev pub dockerhub : Bytes
dockerhub = codes "dockerhub"

abbrev pub up_to_dot : Bytes → Option ℕ → Bytes
up_to_dot host none = host
up_to_dot host (some i) = if i == 0 then host else take i host

-- registryNameFromHost, once the port is cut off.
unfoldable pub named_host : Bytes → Bytes
unfolding index_byte
named_host host =
    if same host (codes "docker.io")
      || same host (codes "registry-1.docker.io")
      || same host (codes "index.docker.io")
    then dockerhub
    else if same host (codes "ghcr.io")
    then codes "ghcr"
    else if same host (codes "quay.io")
    then codes "quay"
    else if same host (codes "registry.k8s.io")
    then codes "k8s"
    else up_to_dot host (index_byte host b'.')

unfoldable pub registry_name_from_host : Bytes → Bytes
unfolding named_host index_byte
registry_name_from_host host = named_host (before host (index_byte host b':'))

-- A first part that is the host of a registry: with a dot, a port, or localhost.
unfoldable pub is_host : Bytes → Bool
unfolding index_byte
is_host s = is_some (index_byte s b'.') || is_some (index_byte s b':') || same s (codes "localhost")

abbrev pub library_name : Bytes → Bytes
library_name name = if has_prefix name (codes "library/") then name else codes "library/" ++ name

-- inferRegistryAndName, at the place of the first slash.
unfoldable pub infer_at : Bytes → Option ℕ → Bytes × Bytes
unfolding is_host registry_name_from_host
infer_at name none = (dockerhub, library_name name)
infer_at name (some i) =
    if is_host (take i name)
    then (registry_name_from_host (take i name), name)
    else (dockerhub, library_name name)

unfoldable pub infer_registry_and_name : Bytes → Bytes × Bytes
unfolding infer_at index_byte
infer_registry_and_name name = infer_at name (index_byte name b'/')

pub record Image : Type 0 where
  pub registry : Bytes
  pub name : Bytes
  pub ref : Bytes

-- A registry must have come out.
unfoldable pub image_of : Bytes → Bytes × Bytes → Option Image
image_of ref (registry, name) =
    if is_empty registry
    then none
    else some (record { registry = registry; name = name; ref = ref })

-- A tag after the last colon, unless a slash follows: the colon of a port.
unfoldable pub tagged : Bytes → Option ℕ → Bytes × Bytes
unfolding contains
tagged target none = (target, codes "latest")
tagged target (some i) =
    if ltb 0 i && not (contains (drop i target) (codes "/"))
    then (take i target, drop (suc i) target)
    else (target, codes "latest")

unfoldable pub split_tagged : Bytes → Option Image
unfolding tagged image_of infer_registry_and_name last_index_byte
split_tagged target =
    let (name, ref) = tagged target (last_index_byte target b':') in
    image_of ref (infer_registry_and_name name)

-- splitDockerImage, at the place of the first @; what follows it is the reference.
unfoldable pub split_at : Bytes → Option ℕ → Option Image
unfolding split_tagged image_of infer_registry_and_name
split_at target none = split_tagged target
split_at target (some i) =
    if i == 0
    then split_tagged target
    else image_of (drop (suc i) target) (infer_registry_and_name (take i target))

unfoldable pub split_docker_image : Bytes → Option Image
unfolding split_at trim_space index_byte
split_docker_image target =
    if is_empty (trim_space target)
    then none
    else split_at (trim_space target) (index_byte (trim_space target) b'@')

-- dockerPathFor
unfoldable pub docker_path_for : Bytes → Bytes → Bytes → Bytes → Bytes
docker_path_for registry name kind ref =
    if same registry dockerhub
    then codes "/v2/" ++ name ++ codes "/" ++ kind ++ codes "/" ++ ref
    else codes "/v2/" ++ registry ++ codes "/" ++ name ++ codes "/" ++ kind ++ codes "/" ++ ref

-- The path of an image's manifest.
unfoldable pub manifest_path : Image → Bytes
unfolding docker_path_for
manifest_path i = docker_path_for i.registry i.name (codes "manifests") i.ref

-- A file of a model: its identity, its revision and its name.
pub record ModelFile : Type 0 where
  pub model_id : Bytes
  pub revision : Bytes
  pub filename : Bytes

-- The target of runHuggingFaceModelFile, in three parts; a blank revision is main.
unfoldable pub split_model_file : Bytes → Option ModelFile
unfolding index_byte trim_space
split_model_file target = elim (index_byte target b'|') [
  | none ↦ none
  | some i ↦ elim (index_byte (drop (suc i) target) b'|') [
    | none ↦ none
    | some j ↦
        let model_id = take i target in
        let revision = take j (drop (suc i) target) in
        let filename = drop (suc j) (drop (suc i) target) in
        if is_empty (trim_space model_id) || is_empty (trim_space filename)
        then none
        else some (record {
          model_id = model_id;
          revision = if is_empty (trim_space revision) then codes "main" else revision;
          filename = filename;
        })
  ]
]

-- The path under which the resource proxy serves the file.
unfoldable pub model_path : ModelFile → Bytes
model_path f =
    codes "/r/huggingface-models/"
    ++ f.model_id
    ++ codes "/resolve/"
    ++ f.revision
    ++ codes "/"
    ++ f.filename
