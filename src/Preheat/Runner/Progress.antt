-- ===== src/Preheat/Runner/Progress.antt =====
-- A run that is not canceled: what its task's row counts, and the status that it leaves.
use mathlib.Core.Option
use cncache_hub.Prelude.{
  ℕ, ◌+◌, ◌≡◌, refl, ap, ap₂, ◌∙◌, Bool, true, false, not, ◌&&◌, ◌||◌, none, some, List, [], ltb,
  Bool-cases, inl, inr, ◌∷◌, if◌then◌else◌, arith,
}
use cncache_hub.Text.{Bytes, is_empty}
use cncache_hub.Storage.Sql.Laws.{find_where-update}
use cncache_hub.Storage.Preheats.{
  PreheatTaskStatus, PreheatTask, PreheatItem, Preheats, has_task_id, get_preheat_task, set_status,
  update_preheat_task_status, list_preheat_items,
}
use cncache_hub.Preheat.Fetch.{Outcome}
use cncache_hub.Preheat.Runner.{
  Turn, TaskRun, status_lost, mark_task_error, run_item, first_error, run_items, final_status,
  final_message, end_task, run_task_inner,
}
use cncache_hub.Preheat.Runner.Counts.{
  outcome_of, count_from, bytes_from, run_items-live, run_items_grow,
}

abbrev pub succeeds : Outcome → Bool
succeeds (bytes, none) = true
succeeds (bytes, some e) = false

unfoldable pub all_succeed : (ℕ → Turn) → Bytes → PreheatTask → List PreheatItem → ℕ → Bool
all_succeed turn base task [] k = true
all_succeed turn base task (item ∷ items) k =
    succeeds (outcome_of (turn k) base task item) && all_succeed turn base task items (k + 1)

first_error_empty :
    (message : Bytes) (item : PreheatItem) (o : Outcome)
    → is_empty (first_error message item o.1) ≡ (is_empty message && succeeds o)
first_error_empty [] item (b, none) = refl
first_error_empty [] item (b, some e) = refl
first_error_empty (c ∷ m) item (b, none) = refl
first_error_empty (c ∷ m) item (b, some e) = refl

and_assoc : (a b c : Bool) → (a && b) && c ≡ a && (b && c)
and_assoc true b c = refl
and_assoc false b c = refl

run_items_message :
    (turn : ℕ → Turn) (base : Bytes) (task : PreheatTask) (items : List PreheatItem) (k : ℕ)
    (db : Preheats) (message : Bytes)
    → ((i : ℕ) → (turn i).canceled ≡ false)
    → is_empty (run_items turn base task items k db message).1
      ≡ (is_empty message && all_succeed turn base task items k)
unfolding run_items all_succeed run_item
run_items_message turn base task [] k db message live = ground arith
run_items_message turn base task (item ∷ items) k db message live =
    let r = run_item (turn k) base task item db in
    ap (λ x. is_empty x.1) (run_items-live turn base task item items k db message (live k))
    ∙ run_items_message turn base task items (k + 1) r.0 (first_error message item r.1) live
    ∙ ap (λ b. b && all_succeed turn base task items (k + 1))
        (first_error_empty message item (outcome_of (turn k) base task item))
    ∙ and_assoc (is_empty message) (succeeds (outcome_of (turn k) base task item))
        (all_succeed turn base task items (k + 1))

get-update_status :
    (now : ℕ) (db : Preheats) (id : ℕ) (status : PreheatTaskStatus) (message : Bytes) (duration : ℕ)
    (t : PreheatTask)
    → get_preheat_task db id ≡ some t
    → get_preheat_task (update_preheat_task_status now db id status message duration) id
      ≡ some (set_status now status message duration t)
unfolding get_preheat_task update_preheat_task_status
get-update_status now db id status message duration t h =
    find_where-update (has_task_id id) (set_status now status message duration) (λ x e. e) db.tasks
    ∙ ap (Option.map (set_status now status message duration)) h

-- The task's row after the end of its run, which is lost after thirty seconds.
abbrev ended : TaskRun → Bytes → PreheatTask → PreheatTask
ended w message t =
    if status_lost w
    then t
    else set_status w.ends (final_status w.canceled message) (final_message w.canceled message)
        w.duration t

get-end_task :
    (w : TaskRun) (task : PreheatTask) (r : Preheats × Bytes) (t : PreheatTask)
    → get_preheat_task r.0 task.id ≡ some t
    → get_preheat_task (end_task w task r) task.id ≡ some (ended w r.1 t)
unfolding end_task
get-end_task w task (db, message) t h = elim (Bool-cases (status_lost w)) [
  | inl e ↦ rw e h
  | inr e ↦ rw e (
      get-update_status w.ends db task.id (final_status w.canceled message)
        (final_message w.canceled message) w.duration t h)
]

-- The status that a run leaves: it stays at running where its last write is lost.
abbrev pub status_after : TaskRun → Bool → PreheatTaskStatus
status_after w all_good =
    if w.final_fails || not (ltb w.duration 30000)
    then PreheatTaskStatus.running
    else if all_good
    then PreheatTaskStatus.done
    else PreheatTaskStatus.error

ended_lem :
    (w : TaskRun) (message : Bytes) (t : PreheatTask) (all_good : Bool)
    → w.canceled ≡ false
    → is_empty message ≡ all_good
    → t.status ≡ PreheatTaskStatus.running
    → ((ended w message t).progress_done ≡ t.progress_done)
      × ((ended w message t).progress_bytes ≡ t.progress_bytes)
      × ((ended w message t).status ≡ status_after w all_good)
ended_lem w message t all_good runs good s = elim (Bool-cases (status_lost w)) [
  | inl e ↦
      let late : (w.final_fails || not (ltb w.duration 30000)) ≡ true = ground (arith, e) in
      rw (e, late) (refl, refl, s)
  | inr e ↦
      let late : (w.final_fails || not (ltb w.duration 30000)) ≡ false = ground (arith, e) in
      rw (e, late)
        (
          refl,
          refl,
          ap₂
              (λ c b.
                if c
                then PreheatTaskStatus.canceled
                else if b
                then PreheatTaskStatus.done
                else PreheatTaskStatus.error)
              runs good,
        )
]

-- A run of a task that is in the table, which is marked and listed and which nobody cancels. On top of
-- what earlier runs counted, one more is done for every item that ends within ten seconds and whose
-- progress the database takes, whether the item succeeded or not, and the bytes of these items are
-- added. A run that ends within thirty seconds and whose last write succeeds ends as done if every
-- item succeeded, else as an error; any other stays at running.
pub run_task_inner_lem :
    (w : TaskRun) (task t : PreheatTask) (db : Preheats)
    → w.mark_fails ≡ false
    → w.list_fails ≡ false
    → w.canceled ≡ false
    → ((i : ℕ) → (w.turn i).canceled ≡ false)
    → get_preheat_task db task.id ≡ some t
    → let items = list_preheat_items db task.id in
      (t' : PreheatTask) × (get_preheat_task (run_task_inner w task db) task.id ≡ some t')
      × (t'.progress_done ≡ t.progress_done + count_from w.turn items 0)
      × (t'.progress_bytes ≡ t.progress_bytes + bytes_from w.turn w.base task items 0)
      × (t'.status ≡ status_after w (all_succeed w.turn w.base task items 0))
unfolding run_task_inner list_preheat_items update_preheat_task_status
run_task_inner_lem w task t db marks lists runs live h =
    let marked = update_preheat_task_status w.begins db task.id PreheatTaskStatus.running [] 0 in
    let r = run_items w.turn w.base task (list_preheat_items marked task.id) 0 marked [] in
    let run =
      ap₂ (λ a b. if a then db else if b then mark_task_error w task marked else end_task w task r)
        marks lists in
    let (t', found, (count, bytes, status)) =
      run_items_grow w.turn w.base task (list_preheat_items marked task.id) 0 marked []
        (set_status w.begins PreheatTaskStatus.running [] 0 t) live
        (get-update_status w.begins db task.id PreheatTaskStatus.running [] 0 t h) in
    let good =
      run_items_message w.turn w.base task (list_preheat_items marked task.id) 0 marked [] live in
    let (same_count, same_bytes, ends) =
      ended_lem w r.1 t' (all_succeed w.turn w.base task (list_preheat_items marked task.id) 0) runs
        good status in
    (
      ended w r.1 t',
      ap (λ x. get_preheat_task x task.id) run ∙ get-end_task w task r t' found,
      same_count ∙ count,
      same_bytes ∙ bytes,
      ends,
    )
