-- ===== src/Api/Tasks/Targets.antt =====
-- The targets of a task that is created.
use cncache_hub.Prelude.{
  ◌≡◌, refl, sym, ap, ◌∙◌, subst, Bool, true, false, not, ◌&&◌, List, [], ◌∷◌, ok, Bool-cases, inl,
  inr, any, arith,
}
use cncache_hub.Text.{Bytes, codes, same, is_empty, trim_space}
use cncache_hub.Text.Equality.{same_refl, same→≡}
use cncache_hub.Storage.Preheats.{PreheatTaskInput}
use cncache_hub.Api.Requests.{Handled, refuse}
use cncache_hub.Api.Tasks.{
  TaskRequest, is_one_of, kinds, clean_targets, with_targets, or_enabled, checked_task,
}

-- No text stands twice.
abbrev pub IsDistinct : List Bytes → Type 0
IsDistinct [] = Unit
IsDistinct (t ∷ ts) = (is_one_of ts t ≡ false) × IsDistinct ts

-- A text that one of the targets is when it is trimmed.
abbrev pub is_given : List Bytes → Bytes → Bool
is_given ts t = any (λ s. same t (trim_space s)) ts

clean_targets-is_one_of :
    (seen ts : List Bytes) (t : Bytes)
    → is_one_of (clean_targets seen ts) t
      ≡ not (is_empty t) && (not (is_one_of seen t) && is_given ts t)
unfolding clean_targets
clean_targets-is_one_of seen [] t = ground arith
clean_targets-is_one_of seen (s ∷ ts) t = elim (Bool-cases (is_empty (trim_space s))) [
  | inl e ↦ elim (Bool-cases (same t (trim_space s))) [
    | inl q ↦
        let at_s : is_empty t ≡ true =
          subst (λ x. is_empty x ≡ true) (sym (same→≡ t (trim_space s) q)) e in
        rw e (clean_targets-is_one_of seen ts t ∙ rw at_s refl)
    | inr n ↦ rw (e, n) (clean_targets-is_one_of seen ts t)
  ]
  | inr f ↦ elim (Bool-cases (is_one_of seen (trim_space s))) [
    | inl e ↦ elim (Bool-cases (same t (trim_space s))) [
      | inl q ↦
          let at_s : is_one_of seen t ≡ true =
            subst (λ x. is_one_of seen x ≡ true) (sym (same→≡ t (trim_space s) q)) e in
          rw (f, e) (clean_targets-is_one_of seen ts t ∙ rw at_s refl)
      | inr n ↦ rw (f, e, n) (clean_targets-is_one_of seen ts t)
    ]
    | inr g ↦ elim (Bool-cases (same t (trim_space s))) [
      | inl q ↦
          let fresh : is_one_of seen t ≡ false =
            subst (λ x. is_one_of seen x ≡ false) (sym (same→≡ t (trim_space s) q)) g in
          let filled : is_empty t ≡ false =
            subst (λ x. is_empty x ≡ false) (sym (same→≡ t (trim_space s) q)) f in
          rw (f, g, q, fresh, filled) refl
      | inr n ↦ rw (f, g, n) (clean_targets-is_one_of (trim_space s ∷ seen) ts t ∙ rw n refl)
    ]
  ]
]

clean_targets-IsDistinct : (seen ts : List Bytes) → IsDistinct (clean_targets seen ts)
unfolding clean_targets
clean_targets-IsDistinct seen [] = tt
clean_targets-IsDistinct seen (s ∷ ts) = elim (Bool-cases (is_empty (trim_space s))) [
  | inl e ↦ rw e (clean_targets-IsDistinct seen ts)
  | inr f ↦ elim (Bool-cases (is_one_of seen (trim_space s))) [
    | inl e ↦ rw (f, e) (clean_targets-IsDistinct seen ts)
    | inr g ↦
        rw (f, g)
          (
            clean_targets-is_one_of (trim_space s ∷ seen) ts (trim_space s)
                ∙ rw (same_refl (trim_space s), f) refl,
            clean_targets-IsDistinct (trim_space s ∷ seen) ts,
          )
  ]
]

-- What the checks let through.
abbrev pub IsChecked : TaskRequest → PreheatTaskInput → Type 0
IsChecked r n =
    IsDistinct n.targets
    × ((t : Bytes) → is_one_of n.targets t ≡ (not (is_empty t) && is_given r.targets t))
    × (is_one_of kinds n.kind ≡ true)

with_targets-IsChecked :
    (r : TaskRequest) (ts : List Bytes) (n : PreheatTaskInput)
    → is_one_of kinds r.kind ≡ true
    → clean_targets [] r.targets ≡ ts
    → with_targets r ts ≡ ok n
    → IsChecked r n
with_targets-IsChecked r [] n k q h = cc
with_targets-IsChecked r (t ∷ ts) n k q h =
    let made : PreheatTaskInput = record {
      name = r.name;
      kind = r.kind;
      targets = t ∷ ts;
      cron_expression = r.cron_expression;
      max_retries = r.max_retries;
      enabled = or_enabled r.enabled;
    } in
    let same_input : made ≡ n = cc in
    let same_targets : clean_targets [] r.targets ≡ n.targets =
      q ∙ ap (λ x. x.targets) same_input in
    let same_kind : r.kind ≡ n.kind = ap (λ x. x.kind) same_input in
    (
      subst IsDistinct same_targets (clean_targets-IsDistinct [] r.targets),
      λ x.
          subst (λ l. is_one_of l x ≡ (not (is_empty x) && is_given r.targets x)) same_targets
            (clean_targets-is_one_of [] r.targets x),
      subst (λ x. is_one_of kinds x ≡ true) same_kind k,
    )

-- A request for a task that the checks let through: its kind is one of the four, and the targets of
-- the task are exactly the texts that are not empty and that a given target is once it is trimmed,
-- each of them once.
pub checked_task_lem :
    (r : TaskRequest) (n : PreheatTaskInput)
    → checked_task r ≡ ok n
    → IsDistinct n.targets
      × ((t : Bytes) → is_one_of n.targets t ≡ (not (is_empty t) && is_given r.targets t))
      × (is_one_of kinds n.kind ≡ true)
unfolding checked_task
checked_task_lem r n h = elim (Bool-cases (is_empty (trim_space r.name))) [
  | inl e ↦
      let refused : Handled PreheatTaskInput = refuse 400 (codes "invalid_name") in
      let q : refused ≡ ok n = rw e at h in cc
  | inr f ↦ elim (Bool-cases (is_one_of kinds r.kind)) [
    | inl k ↦ with_targets-IsChecked r (clean_targets [] r.targets) n k refl (rw (f, k) at h)
    | inr b ↦
        let refused : Handled PreheatTaskInput = refuse 400 (codes "invalid_kind") in
        let q : refused ≡ ok n = rw (f, b) at h in cc
  ]
]
