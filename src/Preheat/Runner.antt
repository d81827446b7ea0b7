-- ===== src/Preheat/Runner.antt =====
-- preheat/runner.go: the runs of tasks, and the map through which they are canceled.
pub mod Counts
pub mod Progress
pub mod Links
pub mod Races
use cncache_hub.Prelude.{
  ℕ, ◌+◌, Bool, true, false, not, ◌&&◌, ◌||◌, Option, none, some, List, [], ◌∷◌, ◌++◌,
  if◌then◌else◌, ◌==◌, leb,
}
use cncache_hub.Text.{Bytes, codes, is_empty}
use cncache_hub.Storage.Sql.{find_where, update_where, delete_where}
use cncache_hub.Storage.Preheats.{
  PreheatTaskStatus, PreheatItemStatus, PreheatTask, PreheatItem, Preheats, get_preheat_task,
  update_preheat_task_status, update_preheat_task_progress, list_preheat_items, update_preheat_item,
}
use cncache_hub.Preheat.Fetch.{Transport, Outcome, run_target}

-- One turn of the loop: whether the context is canceled by then, when the item starts and ends, the
-- milliseconds in between, what the world answers meanwhile, and which writes the database refuses.
pub record Turn : Type 0 where
  pub canceled : Bool
  pub started : ℕ
  pub finished : ℕ
  pub elapsed : ℕ
  pub transport : Transport
  pub start_fails : Bool
  pub item_fails : Bool
  pub progress_fails : Bool

-- A write that is lost leaves the tables as they were.
abbrev pub unless_lost : Bool → Preheats → Preheats → Preheats
unless_lost true db written = db
unless_lost false db written = written

-- A context with a timeout lets no write through from its deadline on, both in milliseconds.
abbrev pub is_late : ℕ → ℕ → Bool
is_late deadline elapsed = leb deadline elapsed

-- writeCtx: ten seconds from the start of the item.
abbrev pub item_lost : Turn → Bool
item_lost u = u.item_fails || is_late 10000 u.elapsed

abbrev pub progress_lost : Turn → Bool
progress_lost u = u.progress_fails || is_late 10000 u.elapsed

abbrev pub item_status : Option Bytes → PreheatItemStatus
item_status none = PreheatItemStatus.done
item_status (some e) = PreheatItemStatus.error

abbrev pub text_of : Option Bytes → Bytes
text_of none = []
text_of (some e) = e

abbrev pub write_item : Turn → PreheatItem → Preheats → Outcome → Preheats
write_item u item db (bytes, failure) =
    update_preheat_item db item.id (item_status failure) (text_of failure) bytes u.started
      u.finished

-- The end of runItem: the row of the item, and one more that is done, whatever came out.
unfoldable pub end_item : Turn → PreheatTask → PreheatItem → Preheats → Outcome → Preheats
unfolding update_preheat_item update_preheat_task_progress
end_item u task item db (bytes, failure) =
    let d = unless_lost (item_lost u) db (write_item u item db (bytes, failure)) in
    unless_lost (progress_lost u) d (update_preheat_task_progress u.finished d task.id 1 bytes)

-- runItem
unfoldable pub run_item :
    Turn → Bytes → PreheatTask → PreheatItem → Preheats → Preheats × Option Bytes
unfolding end_item run_target update_preheat_item
run_item u base task item db =
    let started =
      unless_lost u.start_fails db
        (update_preheat_item db item.id PreheatItemStatus.running [] 0 u.started 0) in
    let outcome = run_target u.transport base task.kind item.target in
    (end_item u task item started outcome, outcome.1)

-- The first error is kept.
abbrev pub first_error : Bytes → PreheatItem → Option Bytes → Bytes
first_error message item none = message
first_error message item (some e) =
    if is_empty message then codes "item " ++ item.target ++ codes " failed: " ++ e else message

-- The loop of runTaskInner over the items; the turns are counted from k.
unfoldable pub run_items :
    (ℕ → Turn) → Bytes → PreheatTask → List PreheatItem → ℕ → Preheats → Bytes → Preheats × Bytes
unfolding run_item
run_items turn base task [] k db message = (db, message)
run_items turn base task (item ∷ items) k db message =
    let r = run_item (turn k) base task item db in
    let rest = run_items turn base task items (k + 1) r.0 (first_error message item r.1) in
    if (turn k).canceled then (db, codes "canceled") else rest

-- What happens around the loop: its turns, the times of the two writes of the task's status, the
-- milliseconds it took, whether the context is canceled at the end, and which statements fail.
pub record TaskRun : Type 0 where
  pub turn : ℕ → Turn
  pub base : Bytes
  pub begins : ℕ
  pub ends : ℕ
  pub duration : ℕ
  pub canceled : Bool
  pub mark_fails : Bool
  pub list_fails : Bool
  pub final_fails : Bool

-- statusCtx: thirty seconds from the start of the run.
abbrev pub status_lost : TaskRun → Bool
status_lost w = w.final_fails || is_late 30000 w.duration

abbrev pub final_status : Bool → Bytes → PreheatTaskStatus
final_status canceled message =
    if canceled
    then PreheatTaskStatus.canceled
    else if is_empty message
    then PreheatTaskStatus.done
    else PreheatTaskStatus.error

abbrev pub final_message : Bool → Bytes → Bytes
final_message canceled message = if canceled then codes "canceled by user" else message

unfoldable pub end_task : TaskRun → PreheatTask → Preheats × Bytes → Preheats
unfolding update_preheat_task_status
end_task w task (db, message) = unless_lost (status_lost w) db (
    update_preheat_task_status w.ends db task.id (final_status w.canceled message)
      (final_message w.canceled message) w.duration)

-- markTaskError, where the items could not be listed.
abbrev pub mark_task_error : TaskRun → PreheatTask → Preheats → Preheats
mark_task_error w task db = unless_lost (status_lost w) db (
    update_preheat_task_status w.ends db task.id PreheatTaskStatus.error (codes "list items")
      w.duration)

-- runTaskInner
unfoldable pub run_task_inner : TaskRun → PreheatTask → Preheats → Preheats
unfolding run_items end_task list_preheat_items update_preheat_task_status
run_task_inner w task db =
    let marked = update_preheat_task_status w.begins db task.id PreheatTaskStatus.running [] 0 in
    if w.mark_fails
    then db
    else if w.list_fails
    then mark_task_error w task marked
    else end_task w task
        (run_items w.turn w.base task (list_preheat_items marked task.id) 0 marked [])

-- A goroutine with its context: the task as RunTask has read it.
pub record Run : Type 0 where
  pub id : ℕ
  pub task : PreheatTask
  pub canceled : Bool

-- The map `running` from tasks to the runs that their cancel functions reach, and all the goroutines
-- that are alive.
pub record Runner : Type 0 where
  pub db : Preheats
  pub running : List (ℕ × ℕ)
  pub runs : List Run
  pub next_run : ℕ

abbrev pub is_running : PreheatTaskStatus → Bool
is_running PreheatTaskStatus.running = true
is_running PreheatTaskStatus.pending = false
is_running PreheatTaskStatus.done = false
is_running PreheatTaskStatus.error = false
is_running PreheatTaskStatus.canceled = false

abbrev pub has_task : ℕ → ℕ × ℕ → Bool
has_task id (task, run) = task == id

abbrev pub has_run_id : ℕ → Run → Bool
has_run_id id r = r.id == id

-- The goroutine that RunTask starts, under the task's key of the map.
unfoldable pub start_run : Runner → ℕ → PreheatTask → Runner
unfolding delete_where
start_run r id task = record r {
  running = (id, r.next_run) ∷ delete_where (has_task id) r.running;
  runs = (record { id = r.next_run; task = task; canceled = false }) ∷ r.runs;
  next_run = r.next_run + 1;
}

abbrev pub unless_running : Runner → ℕ → Option PreheatTask → Option Runner
unless_running r id none = none
unless_running r id (some task) =
    if is_running task.status then none else some (start_run r id task)

-- RunTask; `none` is an error.
unfoldable pub run_task : Runner → ℕ → Option Runner
unfolding start_run get_preheat_task
run_task r id = unless_running r id (get_preheat_task r.db id)

abbrev pub cancel_run : Run → Run
cancel_run g = record g { canceled = true }

-- CancelTask, at what the map has for the task.
unfoldable pub cancel_found : Runner → Option (ℕ × ℕ) → Runner × Bool
unfolding update_where
cancel_found r none = (r, false)
cancel_found r (some (task, run)) =
    (record r { runs = update_where (has_run_id run) cancel_run r.runs }, true)

unfoldable pub cancel_task : Runner → ℕ → Runner × Bool
unfolding cancel_found find_where
cancel_task r id = cancel_found r (find_where (has_task id) r.running)

-- The goroutine runs to its end and takes the task's key out of the map.
unfoldable pub finish_run : TaskRun → Runner → Run → Runner
unfolding run_task_inner delete_where
finish_run w r g = record r {
  db = run_task_inner w g.task r.db;
  running = delete_where (has_task g.task.id) r.running;
  runs = delete_where (has_run_id g.id) r.runs;
}
