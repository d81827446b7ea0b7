-- ===== src/Preheat/Runner/Counts.antt =====
-- What the items of a run that is not canceled add to the row of its task.
use mathlib.Core.Option
use cncache_hub.Prelude.{
  ℕ, ◌+◌, ◌≡◌, refl, sym, ap, ◌∙◌, subst, Bool, true, false, not, ◌&&◌, some, List, [], ltb, leb,
  Bool-cases, inl, inr, ◌∷◌, if◌then◌else◌, arith,
}
use cncache_hub.Text.{Bytes, codes}
use cncache_hub.Storage.Sql.Laws.{find_where-update}
use cncache_hub.Storage.Preheats.{
  PreheatItemStatus, PreheatTask, PreheatItem, Preheats, has_task_id, get_preheat_task,
  add_progress, update_preheat_task_progress, update_preheat_item,
}
use cncache_hub.Preheat.Fetch.{Outcome, run_target}
use cncache_hub.Preheat.Runner.{
  Turn, unless_lost, item_lost, progress_lost, write_item, end_item, run_item, first_error,
  run_items,
}

-- What comes of an item in its turn.
abbrev pub outcome_of : Turn → Bytes → PreheatTask → PreheatItem → Outcome
outcome_of u base task item = run_target u.transport base task.kind item.target

-- Whether an item counts: its progress is written within ten seconds, and the database takes it.
abbrev pub counts : Turn → Bool
counts u = not u.progress_fails && ltb u.elapsed 10000

counts_lem : (u : Turn) → progress_lost u ≡ not (counts u)
counts_lem u = elim (Bool-cases u.progress_fails) [
  | inl e ↦ rw e refl
  | inr e ↦ elim (Bool-cases (ltb u.elapsed 10000)) [
    | inl n ↦ let q : leb 10000 u.elapsed ≡ false = ground arith in rw (e, n, q) refl
    | inr n ↦ let q : leb 10000 u.elapsed ≡ true = ground arith in rw (e, n, q) refl
  ]
]

-- The number of items from the k-th turn on that count, and their bytes.
unfoldable pub count_from : (ℕ → Turn) → List PreheatItem → ℕ → ℕ
count_from turn [] k = 0
count_from turn (item ∷ items) k =
    (if counts (turn k) then 1 else 0) + count_from turn items (k + 1)

unfoldable pub bytes_from : (ℕ → Turn) → Bytes → PreheatTask → List PreheatItem → ℕ → ℕ
bytes_from turn base task [] k = 0
bytes_from turn base task (item ∷ items) k =
    (if counts (turn k) then (outcome_of (turn k) base task item).0 else 0)
    + bytes_from turn base task items (k + 1)

-- A row of a task whose counts have grown by this, with the same status.
abbrev pub Grown : PreheatTask → ℕ → ℕ → PreheatTask → Type 0
Grown t count bytes t' =
    (t'.progress_done ≡ t.progress_done + count)
    × (t'.progress_bytes ≡ t.progress_bytes + bytes)
    × (t'.status ≡ t.status)

abbrev pub HasGrown : Preheats → ℕ → PreheatTask → ℕ → ℕ → Type 0
HasGrown db id t count bytes =
    (t' : PreheatTask) × (get_preheat_task db id ≡ some t') × Grown t count bytes t'

-- The task's row after an item of so many bytes.
abbrev counted : Turn → ℕ → PreheatTask → PreheatTask
counted u bytes t = if counts u then add_progress u.finished 1 bytes t else t

-- The writes of an item's row leave the tasks alone.
get-unless_lost :
    (lost : Bool) (id : ℕ) (db written : Preheats)
    → get_preheat_task written id ≡ get_preheat_task db id
    → get_preheat_task (unless_lost lost db written) id ≡ get_preheat_task db id
get-unless_lost true id db written h = refl
get-unless_lost false id db written h = h

get-progress :
    (u : Turn) (id bytes : ℕ) (db : Preheats) (t : PreheatTask)
    → get_preheat_task db id ≡ some t
    → get_preheat_task
        (unless_lost (progress_lost u) db (update_preheat_task_progress u.finished db id 1 bytes))
        id
      ≡ some (counted u bytes t)
unfolding get_preheat_task update_preheat_task_progress
get-progress u id bytes db t h = elim (Bool-cases (counts u)) [
  | inl e ↦
      rw (counts_lem u, e)
        (find_where-update (has_task_id id) (add_progress u.finished 1 bytes) (λ x q. q) db.tasks
          ∙ ap (Option.map (add_progress u.finished 1 bytes)) h)
  | inr e ↦ rw (counts_lem u, e) h
]

get-end_item :
    (u : Turn) (task : PreheatTask) (item : PreheatItem) (db : Preheats) (o : Outcome)
    (t : PreheatTask)
    → get_preheat_task db task.id ≡ some t
    → get_preheat_task (end_item u task item db o) task.id ≡ some (counted u o.0 t)
unfolding end_item get_preheat_task update_preheat_item
get-end_item u task item db (bytes, failure) t h =
    let d = unless_lost (item_lost u) db (write_item u item db (bytes, failure)) in
    get-progress u task.id bytes d t
      (get-unless_lost (item_lost u) task.id db (write_item u item db (bytes, failure)) refl ∙ h)

get-run_item :
    (u : Turn) (base : Bytes) (task : PreheatTask) (item : PreheatItem) (db : Preheats)
    (t : PreheatTask)
    → get_preheat_task db task.id ≡ some t
    → get_preheat_task (run_item u base task item db).0 task.id
      ≡ some (counted u (outcome_of u base task item).0 t)
unfolding run_item update_preheat_item get_preheat_task
get-run_item u base task item db t h =
    let first = update_preheat_item db item.id PreheatItemStatus.running [] 0 u.started 0 in
    get-end_item u task item (unless_lost u.start_fails db first) (outcome_of u base task item) t
      (get-unless_lost u.start_fails task.id db first refl ∙ h)

-- What one item adds, and the items after it.
Grown-counted :
    (u : Turn) (t t' : PreheatTask) (b n m : ℕ)
    → Grown (counted u b t) n m t'
    → Grown t ((if counts u then 1 else 0) + n) ((if counts u then b else 0) + m) t'
Grown-counted u t t' b n m (p, q, s) = elim (Bool-cases (counts u)) [
  | inl e ↦
      let p' : t'.progress_done ≡ t.progress_done + 1 + n = rw e at p in
      let q' : t'.progress_bytes ≡ t.progress_bytes + b + m = rw e at q in
      let s' : t'.status ≡ t.status = rw e at s in rw e (omega (arith, p'), omega (arith, q'), s')
  | inr e ↦
      let p' : t'.progress_done ≡ t.progress_done + n = rw e at p in
      let q' : t'.progress_bytes ≡ t.progress_bytes + m = rw e at q in
      let s' : t'.status ≡ t.status = rw e at s in rw e (omega (arith, p'), omega (arith, q'), s')
]

pub run_items-live :
    (turn : ℕ → Turn) (base : Bytes) (task : PreheatTask) (item : PreheatItem)
    (items : List PreheatItem) (k : ℕ) (db : Preheats) (message : Bytes)
    → (turn k).canceled ≡ false
    → run_items turn base task (item ∷ items) k db message ≡ (
        let r = run_item (turn k) base task item db in
        run_items turn base task items (k + 1) r.0 (first_error message item r.1))
unfolding run_items
run_items-live turn base task item items k db message h =
    let r = run_item (turn k) base task item db in
    let rest = run_items turn base task items (k + 1) r.0 (first_error message item r.1) in
    ap (λ c. if c then (db, codes "canceled") else rest) h

pub run_items_grow :
    (turn : ℕ → Turn) (base : Bytes) (task : PreheatTask) (items : List PreheatItem) (k : ℕ)
    (db : Preheats) (message : Bytes) (t : PreheatTask)
    → ((i : ℕ) → (turn i).canceled ≡ false)
    → get_preheat_task db task.id ≡ some t
    → HasGrown
        (run_items turn base task items k db message).0
        task.id
        t
        (count_from turn items k)
        (bytes_from turn base task items k)
unfolding run_items bytes_from count_from
run_items_grow turn base task [] k db message t live h = (t, h, (omega arith, omega arith, refl))
run_items_grow turn base task (item ∷ items) k db message t live h =
    let r = run_item (turn k) base task item db in
    let b = (outcome_of (turn k) base task item).0 in
    let (t', found, grown) =
      run_items_grow turn base task items (k + 1) r.0 (first_error message item r.1)
        (counted (turn k) b t) live (get-run_item (turn k) base task item db t h) in
    subst
      (λ x.
        HasGrown x.0 task.id t (count_from turn (item ∷ items) k)
          (bytes_from turn base task (item ∷ items) k))
      (sym (run_items-live turn base task item items k db message (live k)))
      (
        t',
        found,
        Grown-counted (turn k) t t' b (count_from turn items (k + 1))
            (bytes_from turn base task items (k + 1)) grown,
      )
