-- ===== src/Tests/PreheatRuns.antt =====
-- Preheating at concrete inputs.
use cncache_hub.Prelude.{ℕ, ◌+◌, ◌*◌, ◌≡◌, refl, true, false, none, some, [], ◌∷◌, ◌++◌, arith}
use cncache_hub.Text.{Bytes, codes, same, trim_space, index}
use cncache_hub.Storage.Sql.{find_where}
use cncache_hub.Storage.Preheats.{
  PreheatTaskStatus, PreheatItemStatus, PreheatTask, PreheatItem, Preheats, get_preheat_task,
  list_preheat_items,
}
use cncache_hub.Proxy.Pool.{Upstream, UpstreamPool, has_upstream}
use cncache_hub.Proxy.Route.{manifests, route, upstream_path}
use cncache_hub.Preheat.Image.{split_docker_image, manifest_path, is_host, registry_name_from_host}
use cncache_hub.Preheat.Image.Hosts.{preheat_keeps_host}
use cncache_hub.Preheat.Fetch.{Transport, run_target}
use cncache_hub.Preheat.Runner.{
  Turn, TaskRun, Run, Runner, run_task_inner, has_run_id, start_run, run_task, cancel_run,
  cancel_task, finish_run,
}
use cncache_hub.Preheat.Runner.Counts.{count_from, bytes_from}
use cncache_hub.Preheat.Runner.Progress.{all_succeed, run_task_inner_lem}
use cncache_hub.Preheat.Runner.Links.{created, next, start, new_runner}
use cncache_hub.Preheat.Runner.Races.{cancel_task_reaches, run_task_twice}

abbrev task : PreheatTask
task = record {
  id = 1;
  name = [];
  kind = codes "huggingface_model";
  targets = codes "o/n|main|f" ∷ codes "bad" ∷ [];
  status = PreheatTaskStatus.error;
  progress_total = 2;
  progress_done = 2;
  progress_bytes = 3;
  error_message = [];
  cron_expression = [];
  enabled = true;
  next_run_at = 0;
  last_run_at = 0;
  last_duration_ms = 0;
  retry_count = 0;
  max_retries = 2;
  created_at = 1;
  updated_at = 1;
}

abbrev item : ℕ → Bytes → PreheatItem
item id target = record {
  id = id;
  task_id = 1;
  target = target;
  status = PreheatItemStatus.pending;
  error_message = [];
  bytes_added = 0;
  started_at = 0;
  finished_at = 0;
}

abbrev tables : Preheats
tables = record {
  tasks = task ∷ [];
  next_task_id = 2;
  items = item 1 (codes "o/n|main|f") ∷ item 2 (codes "bad") ∷ [];
  next_item_id = 3;
}

abbrev transport : Transport
transport = record {
  get = λ u. some (record { status = 200; body = 1 ∷ 2 ∷ 3 ∷ []; breaks = false });
  parse_manifest = λ b. none;
  parse_int = λ b. none;
  has_docker = false;
  docker_run = λ a. none;
}

-- The first item ends at once, the second one too late for its writes.
abbrev turn : ℕ → Turn
turn i = record {
  canceled = false;
  started = i;
  finished = i + 1;
  elapsed = i * 20000;
  transport = transport;
  start_fails = false;
  item_fails = false;
  progress_fails = false;
}

abbrev w : TaskRun
w = record {
  turn = turn;
  base = codes "http://h";
  begins = 10;
  ends = 20;
  duration = 25000;
  canceled = false;
  mark_fails = false;
  list_fails = false;
  final_fails = false;
}

run_task_inner_lem_example :
    (t' : PreheatTask) × (get_preheat_task (run_task_inner w task tables) 1 ≡ some t')
    × (t'.progress_done ≡ 3)
    × (t'.progress_bytes ≡ 6)
    × (t'.status ≡ PreheatTaskStatus.error)
unfolding get_preheat_task list_preheat_items count_from bytes_from all_succeed run_target same
run_task_inner_lem_example = run_task_inner_lem w task task tables refl refl refl (λ i. refl) refl

abbrev started : Runner
started = start_run (new_runner tables) 1 task

cancel_task_reaches_example :
    (g : Run) × (g.task.id ≡ 1)
    × (find_where (has_run_id g.id) started.runs ≡ some g)
    × (find_where (has_run_id g.id) (cancel_task started 1).0.runs ≡ some (cancel_run g))
unfolding run_task cancel_task
cancel_task_reaches_example =
    cancel_task_reaches started (cancel_task started 1).0 1
      (next (created tables) (start (new_runner tables) started 1 refl)) refl

run_task_twice_example :
    let twice = start_run started 1 task in
    let first : Run = record { id = 0; task = task; canceled = false } in
    let second : Run = record { id = 1; task = task; canceled = false } in
    (run_task (new_runner tables) 1 ≡ some started)
    × (run_task started 1 ≡ some twice)
    × (find_where (has_run_id 1) (finish_run w twice first).runs ≡ some second)
    × (cancel_task (finish_run w twice first) 1 ≡ (finish_run w twice first, false))
unfolding get_preheat_task
run_task_twice_example = run_task_twice (new_runner tables) 1 task w refl refl

abbrev client : Upstream
client = record { base_url = codes "https://g"; ua = []; token_cache = [] }

abbrev pool : UpstreamPool
pool = record {
  upstreams = (record { name = codes "ghcr"; client = client }) ∷ [];
  default_upstream = none;
}

abbrev name : Bytes
name = codes "ghcr.io/o/n"

preheat_keeps_host_example :
    (split_docker_image (name ++ codes ":1")
      ≡ some (record { registry = codes "ghcr"; name = name; ref = codes "1" }))
    × (route pool (manifest_path (record { registry = codes "ghcr"; name = name; ref = codes "1" }))
        ≡ manifests (codes "ghcr") name (codes "1"))
    × (upstream_path (
          route pool
            (manifest_path (record { registry = codes "ghcr"; name = name; ref = codes "1" })))
        ≡ codes "/v2/" ++ name ++ codes "/manifests/" ++ codes "1")
unfolding trim_space is_host registry_name_from_host same has_upstream index
preheat_keeps_host_example =
    preheat_keeps_host pool b'g' (codes "hcr.io") (codes "o/n") (codes "1") (codes "ghcr") refl
      (omega arith) (omega arith) (omega arith) (omega arith) refl refl refl (omega arith) refl refl
      refl
