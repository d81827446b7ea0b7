-- ===== src/Preheat/Runner/Links.antt =====
-- The runs of tasks as steps in any order: what the map of the runner says of the goroutines.
use mathlib.Core.Option
use mathlib.Core.Option.{some-injective}
use cncache_hub.Prelude.{
  ℕ, ◌+◌, ◌<◌, ◌≡◌, refl, sym, ap, ◌∙◌, subst, true, false, Option, none, some, List, [], ◌∷◌, ◌==◌,
  if◌then◌else◌, arith, Bool-cases, inl, inr, All, All-map, ==_iff,
}
use cncache_hub.Storage.Sql.{find_where, update_where, delete_where}
use cncache_hub.Storage.Sql.Laws.{
  find_where_sound, find_where_first, find_where-update_any, find_where-delete_other,
  All-find_where, All-delete_where, All-update_where,
}
use cncache_hub.Storage.Preheats.{PreheatTask, Preheats, has_task_id, get_preheat_task}
use cncache_hub.Preheat.Runner.{
  Run, Runner, TaskRun, is_running, has_task, has_run_id, start_run, unless_running, run_task,
  cancel_run, cancel_found, cancel_task, finish_run,
}

-- What can happen next: a task is started or canceled, a goroutine that is alive ends, or a handler
-- writes the tables.
pub data Step : Runner → Runner → Type 0 where
  start : (r r' : Runner) (id : ℕ) → run_task r id ≡ some r' → Step r r'
  cancel : (r : Runner) (id : ℕ) → Step r (cancel_task r id).0
  finish :
      (r : Runner) (g : Run) (w : TaskRun)
      → find_where (has_run_id g.id) r.runs ≡ some g
      → Step r (finish_run w r g)
  write : (r : Runner) (db : Preheats) → Step r (record r { db = db })

-- NewRunner
abbrev pub new_runner : Preheats → Runner
new_runner db = record { db = db; running = []; runs = []; next_run = 0 }

pub data Reach : Runner → Type 0 where
  created : (db : Preheats) → Reach (new_runner db)
  next : {r r' : Runner} → Reach r → Step r r' → Reach r'

-- A key of the map reaches a goroutine of its task that is alive.
abbrev pub Reaches : List Run → ℕ × ℕ → Type 0
Reaches runs (task, run) =
    (g : Run) × (find_where (has_run_id run) runs ≡ some g) × (g.task.id ≡ task)

abbrev pub IsBelow : ℕ → Run → Type 0
IsBelow n g = g.id < n

pub record IsLinked (r : Runner) : Type 0 where
  pub linked : All (Reaches r.runs) r.running
  pub below : All (IsBelow r.next_run) r.runs

new-IsLinked : (db : Preheats) → IsLinked (new_runner db)
new-IsLinked db = record { linked = tt; below = tt }

Reaches-later :
    (runs : List Run) (n : ℕ) (new : Run)
    → All (IsBelow n) runs
    → new.id ≡ n
    → (p : ℕ × ℕ) → Reaches runs p
    → Reaches (new ∷ runs) p
unfolding find_where
Reaches-later runs n new below e (task, run) (g, found, same_task) =
    let same_id = (==_iff g.id run).0 (find_where_sound (has_run_id run) runs g found) in
    let less : g.id < n = All-find_where (IsBelow n) (has_run_id run) runs g below found in
    let apart : (new.id == run) ≡ false = ground arith in (g, rw apart found, same_task)

start_run-IsLinked :
    (r : Runner) (id : ℕ) (task : PreheatTask)
    → task.id ≡ id
    → IsLinked r
    → IsLinked (start_run r id task)
unfolding start_run
start_run-IsLinked r id task e l =
    let new : Run = record { id = r.next_run; task = task; canceled = false } in
    record {
      linked = (
        (
          new,
          find_where_first (has_run_id r.next_run) new r.runs
              ((==_iff r.next_run r.next_run).1 refl),
          e,
        ),
        All-map (λ p. Reaches r.runs p × (has_task id p ≡ false)) (Reaches (new ∷ r.runs))
            (λ p h. Reaches-later r.runs r.next_run new l.below refl p h.0)
            (delete_where (has_task id) r.running)
            (All-delete_where (Reaches r.runs) (has_task id) r.running l.linked),
      );
      below = (
        omega arith,
        All-map (IsBelow r.next_run) (IsBelow (r.next_run + 1)) (λ g h. omega arith) r.runs l.below,
      );
    }

run_task-IsLinked :
    (r r' : Runner) (id : ℕ) (o : Option PreheatTask)
    → get_preheat_task r.db id ≡ o
    → unless_running r id o ≡ some r'
    → IsLinked r
    → IsLinked r'
unfolding get_preheat_task
run_task-IsLinked r r' id none f h l = cc
run_task-IsLinked r r' id (some task) f h l = elim (Bool-cases (is_running task.status)) [
  | inl e ↦ let q : none ≡ some r' = rw e at h in cc
  | inr e ↦
      let q : some (start_run r id task) ≡ some r' = rw e at h in
      let named = (==_iff task.id id).0 (find_where_sound (has_task_id id) r.db.tasks task f) in
      subst IsLinked (some-injective (start_run r id task) r' q)
        (start_run-IsLinked r id task named l)
]

Reaches-canceled :
    (runs : List Run) (n : ℕ) (p : ℕ × ℕ)
    → Reaches runs p
    → Reaches (update_where (has_run_id n) cancel_run runs) p
Reaches-canceled runs n (task, run) (g, found, same_task) =
    let changed =
      find_where-update_any (has_run_id n) (has_run_id run) cancel_run (λ x. refl) runs in
    (
      if has_run_id n g then cancel_run g else g,
      changed ∙ ap (Option.map (λ x. if has_run_id n x then cancel_run x else x)) found,
      elim (Bool-cases (has_run_id n g)) [ inl e ↦ rw e same_task | inr e ↦ rw e same_task ],
    )

canceled-IsLinked :
    (r : Runner) (run : ℕ)
    → IsLinked r
    → IsLinked (record r { runs = update_where (has_run_id run) cancel_run r.runs })
canceled-IsLinked r run l = record {
  linked =
      All-map (Reaches r.runs) (Reaches (update_where (has_run_id run) cancel_run r.runs))
        (Reaches-canceled r.runs run) r.running l.linked;
  below =
      All-update_where (IsBelow r.next_run) (has_run_id run) cancel_run (λ g h. h) r.runs l.below;
}

cancel_found-IsLinked :
    (r : Runner) (o : Option (ℕ × ℕ)) → IsLinked r → IsLinked (cancel_found r o).0
unfolding cancel_found
cancel_found-IsLinked r none l = l
cancel_found-IsLinked r (some (task, run)) l = canceled-IsLinked r run l

cancel_task-IsLinked : (r : Runner) (id : ℕ) → IsLinked r → IsLinked (cancel_task r id).0
unfolding cancel_task
cancel_task-IsLinked r id l = cancel_found-IsLinked r (find_where (has_task id) r.running) l

Reaches-others :
    (runs : List Run) (g : Run) (p : ℕ × ℕ)
    → find_where (has_run_id g.id) runs ≡ some g
    → has_task g.task.id p ≡ false
    → Reaches runs p
    → Reaches (delete_where (has_run_id g.id) runs) p
Reaches-others runs g (task, run) alive other (x, found, same_task) =
    elim (Bool-cases (g.id == run)) [
      | inl e ↦
          let same_run = (==_iff g.id run).0 e in
          let at_run : find_where (has_run_id run) runs ≡ some g =
            subst (λ n. find_where (has_run_id n) runs ≡ some g) same_run alive in
          let q : some x ≡ some g = sym found ∙ at_run in
          let same : x ≡ g = some-injective x g q in
          let own = (==_iff task g.task.id).1 (sym same_task ∙ ap (λ y. y.task.id) same) in
          let both : true ≡ false = sym own ∙ other in cc
      | inr e ↦ (
        x,
        find_where-delete_other (has_run_id g.id) (has_run_id run) (λ y h. ground arith) runs
            ∙ found,
        same_task,
      )
    ]

finish_run-IsLinked :
    (w : TaskRun) (r : Runner) (g : Run)
    → find_where (has_run_id g.id) r.runs ≡ some g
    → IsLinked r
    → IsLinked (finish_run w r g)
unfolding finish_run
finish_run-IsLinked w r g alive l = record {
  linked =
      All-map (λ p. Reaches r.runs p × (has_task g.task.id p ≡ false))
        (Reaches (delete_where (has_run_id g.id) r.runs))
        (λ p h. Reaches-others r.runs g p alive h.1 h.0)
        (delete_where (has_task g.task.id) r.running)
        (All-delete_where (Reaches r.runs) (has_task g.task.id) r.running l.linked);
  below =
      All-map (λ x. IsBelow r.next_run x × (has_run_id g.id x ≡ false)) (IsBelow r.next_run)
        (λ x h. h.0) (delete_where (has_run_id g.id) r.runs)
        (All-delete_where (IsBelow r.next_run) (has_run_id g.id) r.runs l.below);
}

Step-IsLinked : {r r' : Runner} → Step r r' → IsLinked r → IsLinked r'
unfolding run_task
Step-IsLinked (start r r' id h) l = run_task-IsLinked r r' id (get_preheat_task r.db id) refl h l
Step-IsLinked (cancel r id) l = cancel_task-IsLinked r id l
Step-IsLinked (finish r g w alive) l = finish_run-IsLinked w r g alive l
Step-IsLinked (write r db) l = record { linked = l.linked; below = l.below }

pub Reach-IsLinked : {r : Runner} → Reach r → IsLinked r
Reach-IsLinked (created db) = new-IsLinked db
Reach-IsLinked (next reached step) = Step-IsLinked step (Reach-IsLinked reached)
