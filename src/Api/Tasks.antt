-- ===== src/Api/Tasks.antt =====
-- api/preheat_task_handlers.go: the tasks as they are created, run and canceled.
pub mod Targets
use cncache_hub.Prelude.{
  ℕ, Bool, true, false, not, ◌&&◌, ◌||◌, Option, none, some, List, [], ◌∷◌, ◌++◌, if◌then◌else◌,
  Result, ok, err, ◌>>=◌, any,
}
use cncache_hub.Prelude.Int.{ℤ}
use cncache_hub.Text.{Bytes, codes, same, is_empty, trim_space}
use cncache_hub.Storage.Preheats.{
  PreheatTask, PreheatItem, PreheatTaskInput, Preheats, create_preheat_task, delete_preheat_task,
  get_preheat_task, list_preheat_tasks, list_preheat_items,
}
use cncache_hub.Preheat.Runner.{Runner, run_task, cancel_task}
use cncache_hub.Api.Requests.{
  ApiError, ApiReply, Handled, refuse, Decoded, decode_json_body, Caller, require_admin,
  positive_id,
}

pub record TaskRequest : Type 0 where
  pub name : Bytes
  pub kind : Bytes
  pub targets : List Bytes
  pub cron_expression : Bytes
  pub max_retries : ℕ
  pub enabled : Option Bool

abbrev pub is_one_of : List Bytes → Bytes → Bool
is_one_of names s = any (λ n. same s n) names

abbrev pub kinds : List Bytes
kinds = codes "docker" ∷ codes "steam" ∷ codes "resource" ∷ codes "huggingface_model" ∷ []

-- The loop over the targets: trimmed, without the empty ones and without one that was seen.
unfoldable pub clean_targets : List Bytes → List Bytes → List Bytes
unfolding trim_space
clean_targets seen [] = []
clean_targets seen (t ∷ ts) =
    let skipped = clean_targets seen ts in
    let kept = clean_targets (trim_space t ∷ seen) ts in
    if is_empty (trim_space t)
    then skipped
    else if is_one_of seen (trim_space t)
    then skipped
    else trim_space t ∷ kept

abbrev pub or_enabled : Option Bool → Bool
or_enabled none = true
or_enabled (some b) = b

abbrev pub with_targets : TaskRequest → List Bytes → Handled PreheatTaskInput
with_targets r [] = refuse 400 (codes "empty_targets")
with_targets r (t ∷ ts) = ok (record {
  name = r.name;
  kind = r.kind;
  targets = t ∷ ts;
  cron_expression = r.cron_expression;
  max_retries = r.max_retries;
  enabled = or_enabled r.enabled;
})

-- The checks of preheatTaskCreateHandler.
unfoldable pub checked_task : TaskRequest → Handled PreheatTaskInput
unfolding clean_targets trim_space
checked_task r =
    if is_empty (trim_space r.name)
    then refuse 400 (codes "invalid_name")
    else if not (is_one_of kinds r.kind)
    then refuse 400 (codes "invalid_kind")
    else with_targets r (clean_targets [] r.targets)

abbrev pub created_or :
    Preheats → Option (Preheats × PreheatTask) → Preheats × Handled (ApiReply PreheatTask)
created_or db none = (db, refuse 500 (codes "preheat_task_create_failed"))
created_or db (some (db', task)) = (db', ok (record { status = 201; body = task }))

abbrev pub create_or :
    ℕ → Preheats → Handled PreheatTaskInput → Preheats × Handled (ApiReply PreheatTask)
create_or now db (err e) = (db, err e)
create_or now db (ok n) = created_or db (create_preheat_task now db n)

-- preheatTaskCreateHandler
unfoldable pub preheat_task_create :
    ℕ → Preheats → Caller → Decoded TaskRequest → Preheats × Handled (ApiReply PreheatTask)
unfolding checked_task create_preheat_task require_admin decode_json_body
preheat_task_create now db c body =
    create_or now db (require_admin c >>= λ a. decode_json_body body >>= λ r. checked_task r)

-- preheatTaskListHandler
unfoldable pub preheat_task_list : Preheats → ApiReply (List PreheatTask)
unfolding list_preheat_tasks
preheat_task_list db = record { status = 200; body = list_preheat_tasks db }

abbrev pub delete_or : Preheats → Handled ℕ → Preheats × Handled ℕ
delete_or db (err e) = (db, err e)
delete_or db (ok id) = (delete_preheat_task db id, ok 204)

-- preheatTaskDeleteHandler
unfoldable pub preheat_task_delete : Preheats → Caller → Option ℤ → Preheats × Handled ℕ
unfolding delete_preheat_task require_admin positive_id
preheat_task_delete db c id = delete_or db (require_admin c >>= λ a. positive_id id)

abbrev pub started_or : Runner → ℕ → Option Runner → Runner × Handled (ApiReply PreheatTask)
started_or r id none = (r, refuse 409 (codes "preheat_task_run_failed"))
started_or r id (some r') = elim (get_preheat_task r'.db id) [
  | none ↦ (r', refuse 500 (codes "preheat_task_get_failed"))
  | some task ↦ (r', ok (record { status = 202; body = task }))
]

abbrev pub run_or : Runner → Handled ℕ → Runner × Handled (ApiReply PreheatTask)
run_or r (err e) = (r, err e)
run_or r (ok id) = started_or r id (run_task r id)

-- preheatTaskRunHandler
unfoldable pub preheat_task_run :
    Runner → Caller → Option ℤ → Runner × Handled (ApiReply PreheatTask)
unfolding run_task get_preheat_task require_admin positive_id
preheat_task_run r c id = run_or r (require_admin c >>= λ a. positive_id id)

abbrev pub canceled_or : Runner × Bool → Runner × Handled ℕ
canceled_or (r, true) = (r, ok 204)
canceled_or (r, false) = (r, refuse 409 (codes "not_running"))

abbrev pub cancel_or : Runner → Handled ℕ → Runner × Handled ℕ
cancel_or r (err e) = (r, err e)
cancel_or r (ok id) = canceled_or (cancel_task r id)

-- preheatTaskCancelHandler
unfoldable pub preheat_task_cancel : Runner → Caller → Option ℤ → Runner × Handled ℕ
unfolding cancel_task require_admin positive_id
preheat_task_cancel r c id = cancel_or r (require_admin c >>= λ a. positive_id id)

-- preheatTaskItemsHandler
unfoldable pub preheat_task_items : Preheats → Option ℤ → Handled (ApiReply (List PreheatItem))
unfolding list_preheat_items positive_id
preheat_task_items db id =
    positive_id id >>= λ n. ok (record { status = 200; body = list_preheat_items db n })
