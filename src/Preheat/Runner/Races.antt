-- ===== src/Preheat/Runner/Races.antt =====
-- Cancels and starts of tasks that meet.
use mathlib.Core.Option
use mathlib.Core.Option.{some-injective}
use cncache_hub.Prelude.{
  ℕ, ◌+◌, ◌≡◌, refl, sym, ap, ◌∙◌, subst, true, false, Option, none, some, List, ◌∷◌, ◌==◌,
  if◌then◌else◌, arith, ==_iff,
}
use cncache_hub.Storage.Sql.{find_where, update_where, delete_where}
use cncache_hub.Storage.Sql.Laws.{
  find_where_sound, find_where-update_any, All-find_where, find_where-delete,
}
use cncache_hub.Storage.Preheats.{PreheatTask, has_task_id, get_preheat_task}
use cncache_hub.Preheat.Runner.{
  Run, Runner, TaskRun, is_running, has_task, has_run_id, start_run, unless_running, run_task,
  cancel_run, cancel_found, cancel_task, finish_run,
}
use cncache_hub.Preheat.Runner.Links.{Reach, Reaches, IsLinked, Reach-IsLinked}

cancel_found_reaches :
    (r r' : Runner) (id : ℕ) (o : Option (ℕ × ℕ))
    → IsLinked r
    → find_where (has_task id) r.running ≡ o
    → cancel_found r o ≡ (r', true)
    → (g : Run) × (g.task.id ≡ id)
      × (find_where (has_run_id g.id) r.runs ≡ some g)
      × (find_where (has_run_id g.id) r'.runs ≡ some (cancel_run g))
unfolding cancel_found
cancel_found_reaches r r' id none l f h = let q : false ≡ true = ap (λ x. x.1) h in cc
cancel_found_reaches r r' id (some (task, run)) l f h =
    let (g, found, same_task) =
      All-find_where (Reaches r.runs) (has_task id) r.running (task, run) l.linked f in
    let named = (==_iff task id).0 (find_where_sound (has_task id) r.running (task, run) f) in
    let own = find_where_sound (has_run_id run) r.runs g found in
    let same_run : run ≡ g.id = sym ((==_iff g.id run).0 own) in
    let after =
      subst (λ x. x.runs ≡ update_where (has_run_id run) cancel_run r.runs) (ap (λ x. x.0) h)
        refl in
    let changed =
      find_where-update_any (has_run_id run) (has_run_id run) cancel_run (λ x. refl) r.runs
      ∙ ap (Option.map (λ x. if has_run_id run x then cancel_run x else x)) found
      ∙ ap some (rw own refl) in
    (
      g,
      same_task ∙ named,
      subst (λ n. find_where (has_run_id n) r.runs ≡ some g) same_run found,
      subst (λ n. find_where (has_run_id n) r'.runs ≡ some (cancel_run g)) same_run
          (ap (find_where (has_run_id run)) after ∙ changed),
    )

-- In every state that steps of any order reach, a cancel that is answered with true cancels the
-- context of a goroutine of that task that is alive.
pub cancel_task_reaches :
    (r r' : Runner) (id : ℕ)
    → Reach r
    → cancel_task r id ≡ (r', true)
    → (g : Run) × (g.task.id ≡ id)
      × (find_where (has_run_id g.id) r.runs ≡ some g)
      × (find_where (has_run_id g.id) r'.runs ≡ some (cancel_run g))
unfolding cancel_task
cancel_task_reaches r r' id reached h =
    cancel_found_reaches r r' id (find_where (has_task id) r.running) (Reach-IsLinked reached) refl
      h

second_stays :
    (n : ℕ) (task : PreheatTask) (runs : List Run)
    → let first : Run = record { id = n; task = task; canceled = false } in
      let second : Run = record { id = n + 1; task = task; canceled = false } in
      find_where (has_run_id (n + 1)) (delete_where (has_run_id n) (second ∷ first ∷ runs))
      ≡ some second
unfolding find_where delete_where
second_stays n task runs =
    let apart : (n + 1 == n) ≡ false = ground arith in
    rw apart (rw ((==_iff (n + 1) (n + 1)).1 refl) refl)

-- A task that is started twice before its first goroutine has marked it: both are alive, the first
-- to end takes the key of the map along, and the other one can no longer be canceled.
pub run_task_twice :
    (r : Runner) (id : ℕ) (task : PreheatTask) (w : TaskRun)
    → get_preheat_task r.db id ≡ some task
    → is_running task.status ≡ false
    → let twice = start_run (start_run r id task) id task in
      let first : Run = record { id = r.next_run; task = task; canceled = false } in
      let second : Run = record { id = r.next_run + 1; task = task; canceled = false } in
      (run_task r id ≡ some (start_run r id task))
      × (run_task (start_run r id task) id ≡ some twice)
      × (find_where (has_run_id second.id) (finish_run w twice first).runs ≡ some second)
      × (cancel_task (finish_run w twice first) id ≡ (finish_run w twice first, false))
unfolding run_task start_run finish_run cancel_task get_preheat_task
run_task_twice r id task w found idle =
    let twice = start_run (start_run r id task) id task in
    let first : Run = record { id = r.next_run; task = task; canceled = false } in
    let named = (==_iff task.id id).0 (find_where_sound (has_task_id id) r.db.tasks task found) in
    (
      ap (unless_running r id) found ∙ rw idle refl,
      ap (unless_running (start_run r id task) id) found ∙ rw idle refl,
      second_stays r.next_run task r.runs,
      ap (cancel_found (finish_run w twice first)) (
          subst (λ n. find_where (has_task id) (delete_where (has_task n) twice.running) ≡ none)
            (sym named) (find_where-delete (has_task id) twice.running)),
    )
