-- ===== src/Storage/Preheats.antt =====
-- storage/preheat_task.go: the tasks that preheat the cache, and a row for each of their targets.
use cncache_hub.Prelude.{
  ℕ, ◌+◌, Bool, true, false, Option, none, some, List, [], ◌∷◌, ◌++◌, reverse, if◌then◌else◌,
  length, ◌==◌,
}
use cncache_hub.Text.{Bytes}
use cncache_hub.Storage.Sql.{find_where, update_where, delete_where, select_where}

pub data PreheatTaskStatus : Type 0 where
  pending running done error canceled : PreheatTaskStatus

pub data PreheatItemStatus : Type 0 where
  pending running done error skipped : PreheatItemStatus

pub record PreheatTask : Type 0 where
  pub id : ℕ
  pub name : Bytes
  pub kind : Bytes
  pub targets : List Bytes
  pub status : PreheatTaskStatus
  pub progress_total : ℕ
  pub progress_done : ℕ
  pub progress_bytes : ℕ
  pub error_message : Bytes
  pub cron_expression : Bytes
  pub enabled : Bool
  pub next_run_at : ℕ
  pub last_run_at : ℕ
  pub last_duration_ms : ℕ
  pub retry_count : ℕ
  pub max_retries : ℕ
  pub created_at : ℕ
  pub updated_at : ℕ

pub record PreheatItem : Type 0 where
  pub id : ℕ
  pub task_id : ℕ
  pub target : Bytes
  pub status : PreheatItemStatus
  pub error_message : Bytes
  pub bytes_added : ℕ
  pub started_at : ℕ
  pub finished_at : ℕ

-- Both tables, each with the id that AUTOINCREMENT gives next.
pub record Preheats : Type 0 where
  pub tasks : List PreheatTask
  pub next_task_id : ℕ
  pub items : List PreheatItem
  pub next_item_id : ℕ

abbrev pub has_task_id : ℕ → PreheatTask → Bool
has_task_id id t = t.id == id

abbrev pub has_item_id : ℕ → PreheatItem → Bool
has_item_id id i = i.id == id

abbrev pub of_task : ℕ → PreheatItem → Bool
of_task id i = i.task_id == id

-- ListPreheatTasks, the newest first
unfoldable pub list_preheat_tasks : Preheats → List PreheatTask
list_preheat_tasks db = reverse db.tasks

-- GetPreheatTask; `none` is ErrNotFound.
unfoldable pub get_preheat_task : Preheats → ℕ → Option PreheatTask
unfolding find_where
get_preheat_task db id = find_where (has_task_id id) db.tasks

-- What a caller gives of a new task; its status is empty.
pub record PreheatTaskInput : Type 0 where
  pub name : Bytes
  pub kind : Bytes
  pub targets : List Bytes
  pub cron_expression : Bytes
  pub max_retries : ℕ
  pub enabled : Bool

abbrev pub new_task : ℕ → ℕ → PreheatTaskInput → PreheatTask
new_task now id n = record {
  id = id;
  name = n.name;
  kind = n.kind;
  targets = n.targets;
  status = PreheatTaskStatus.pending;
  progress_total = length n.targets;
  progress_done = 0;
  progress_bytes = 0;
  error_message = [];
  cron_expression = n.cron_expression;
  enabled = n.enabled;
  next_run_at = 0;
  last_run_at = 0;
  last_duration_ms = 0;
  retry_count = 0;
  max_retries = if n.max_retries == 0 then 2 else n.max_retries;
  created_at = now;
  updated_at = now;
}

-- A row for each target, in their order.
unfoldable pub new_items : ℕ → ℕ → List Bytes → List PreheatItem
new_items task_id next [] = []
new_items task_id next (target ∷ targets) =
    (record {
      id = next;
      task_id = task_id;
      target = target;
      status = PreheatItemStatus.pending;
      error_message = [];
      bytes_added = 0;
      started_at = 0;
      finished_at = 0;
    })
    ∷ new_items task_id (next + 1) targets

abbrev pub has_targets : List Bytes → Bool
has_targets [] = false
has_targets (t ∷ ts) = true

-- CreatePreheatTask; `none` is the error where there is no target.
unfoldable pub create_preheat_task :
    ℕ → Preheats → PreheatTaskInput → Option (Preheats × PreheatTask)
unfolding new_items
create_preheat_task now db n =
    if has_targets n.targets
    then some (
      record {
        tasks = db.tasks ++ new_task now db.next_task_id n ∷ [];
        next_task_id = db.next_task_id + 1;
        items = db.items ++ new_items db.next_task_id db.next_item_id n.targets;
        next_item_id = db.next_item_id + length n.targets;
      },
      new_task now db.next_task_id n,
    )
    else none

-- DeletePreheatTask, with the cascade of the foreign key.
unfoldable pub delete_preheat_task : Preheats → ℕ → Preheats
unfolding delete_where
delete_preheat_task db id = record db {
  tasks = delete_where (has_task_id id) db.tasks;
  items = delete_where (of_task id) db.items;
}

abbrev pub set_status : ℕ → PreheatTaskStatus → Bytes → ℕ → PreheatTask → PreheatTask
set_status now status message duration t = record t {
  status = status;
  error_message = message;
  last_run_at = now;
  last_duration_ms = duration;
  updated_at = now;
}

-- UpdatePreheatTaskStatus
unfoldable pub update_preheat_task_status :
    ℕ → Preheats → ℕ → PreheatTaskStatus → Bytes → ℕ → Preheats
unfolding update_where
update_preheat_task_status now db id status message duration = record db {
  tasks = update_where (has_task_id id) (set_status now status message duration) db.tasks;
}

abbrev pub add_progress : ℕ → ℕ → ℕ → PreheatTask → PreheatTask
add_progress now delta_done delta_bytes t = record t {
  progress_done = t.progress_done + delta_done;
  progress_bytes = t.progress_bytes + delta_bytes;
  updated_at = now;
}

-- UpdatePreheatTaskProgress
unfoldable pub update_preheat_task_progress : ℕ → Preheats → ℕ → ℕ → ℕ → Preheats
unfolding update_where
update_preheat_task_progress now db id delta_done delta_bytes = record db {
  tasks = update_where (has_task_id id) (add_progress now delta_done delta_bytes) db.tasks;
}

-- ListPreheatItems
unfoldable pub list_preheat_items : Preheats → ℕ → List PreheatItem
unfolding select_where
list_preheat_items db task_id = select_where (of_task task_id) db.items

abbrev pub set_item : PreheatItemStatus → Bytes → ℕ → ℕ → ℕ → PreheatItem → PreheatItem
set_item status message bytes started finished i = record i {
  status = status;
  error_message = message;
  bytes_added = bytes;
  started_at = started;
  finished_at = finished;
}

-- UpdatePreheatItem
unfoldable pub update_preheat_item : Preheats → ℕ → PreheatItemStatus → Bytes → ℕ → ℕ → ℕ → Preheats
unfolding update_where
update_preheat_item db id status message bytes started finished = record db {
  items = update_where (has_item_id id) (set_item status message bytes started finished) db.items;
}
