-- ===== src/Ratelimit/Limiter/Pool.antt =====
-- The buckets by key, and what a collection changes.
use native.Mathlib.Nat.{mul_comm, mul-le-mul_left}
use cncache_hub.Prelude.{
  ℕ, ◌+◌, ◌-◌, ◌*◌, ◌≤◌, ◌<◌, ◌≡◌, refl, sym, ap, ◌∙◌, true, false, Option, none, some, List, [],
  ◌∷◌, if◌then◌else◌, ltb, arith, All, Bool-cases, inl, inr, subst,
}
use cncache_hub.Text.{Bytes, same}
use cncache_hub.Text.Equality.{same_iff}
use cncache_hub.Ratelimit.Limiter.{
  Bucket, Limiter, refill, spend, take, find_bucket, replace_bucket, gc_locked, full_bucket,
  bucket_for, found_bucket, collect, take_key,
}

-- A map has a key once.
abbrev pub Unique : List (Bytes × Bucket) → Type 0
Unique [] = Unit
Unique ((k, b) ∷ rest) = (find_bucket k rest ≡ none) × Unique rest

-- What a collection leaves of an entry.
abbrev pub unless_idle : ℕ → ℕ → Option Bucket → Option Bucket
unless_idle idle now none = none
unless_idle idle now (some b) = if ltb (b.last_refil + idle) now then none else some b

pub find-gc_locked :
    (idle now : ℕ) (key : Bytes) (bs : List (Bytes × Bucket))
    → Unique bs
    → find_bucket key (gc_locked idle now bs) ≡ unless_idle idle now (find_bucket key bs)
unfolding find_bucket gc_locked
find-gc_locked idle now key [] u = refl
find-gc_locked idle now key ((k, b) ∷ rest) (f, u) =
    let ih = find-gc_locked idle now key rest u in
    elim (Bool-cases (same key k)) [
      | inl e ↦
          let f' : find_bucket key rest ≡ none =
            subst (λ x. find_bucket x rest ≡ none) (sym ((same_iff key k).0 e)) f in
          elim (Bool-cases (ltb (b.last_refil + idle) now)) [
            | inl i ↦ rw (i, e, i) (ih ∙ ap (unless_idle idle now) f')
            | inr i ↦ rw (i, e, i) refl
          ]
      | inr e ↦ elim (Bool-cases (ltb (b.last_refil + idle) now)) [
        | inl i ↦ rw (i, e) ih
        | inr i ↦ rw (i, e) ih
      ]
    ]

pub find-replace_bucket :
    (key other : Bytes) (b : Bucket) (bs : List (Bytes × Bucket))
    → same other key ≡ false
    → find_bucket other (replace_bucket key b bs) ≡ find_bucket other bs
unfolding find_bucket replace_bucket
find-replace_bucket key other b [] n = refl
find-replace_bucket key other b ((k, c) ∷ rest) n = elim (Bool-cases (same key k)) [
  | inl e ↦
      let n' : same other k ≡ false = subst (λ x. same other x ≡ false) ((same_iff key k).0 e) n in
      rw (e, n') refl
  | inr e ↦
      rw e (ap (λ x. if same other k then some c else x) (find-replace_bucket key other b rest n))
]

abbrev bucket_now : Limiter → ℕ → Option Bucket → Bucket
bucket_now l now none = full_bucket l now
bucket_now l now (some b) = b

found_bucket_lem :
    (l : Limiter) (now : ℕ) (key : Bytes) (o : Option Bucket)
    → (found_bucket l now key o).0 ≡ bucket_now l now o
found_bucket_lem l now key none = refl
found_bucket_lem l now key (some b) = refl

bucket_for_lem :
    (l : Limiter) (now : ℕ) (key : Bytes)
    → (bucket_for l now key).0 ≡ bucket_now l now (find_bucket key l.buckets)
unfolding bucket_for
bucket_for_lem l now key = found_bucket_lem l now key (find_bucket key l.buckets)

take_key_answer :
    (now : ℕ) (key : Bytes) (l : Limiter)
    → (take_key now key l).1 ≡ (take now (bucket_now l now (find_bucket key l.buckets))).1
unfolding take_key
take_key_answer now key l = ap (λ b. (take now b).1) (bucket_for_lem l now key)

-- The limiter's own bucket: it has the limiter's numbers.
abbrev pub IsOwn : Limiter → Bucket → Type 0
IsOwn l b = (b.capacity ≡ l.capacity) × (b.unit ≡ l.unit) × (b.rate ≡ l.rate)

abbrev pub AllOwn : Limiter → List (Bytes × Bucket) → Type 0
AllOwn l = All (λ e. IsOwn l e.1)

find-IsOwn :
    (l : Limiter) (key : Bytes) (b : Bucket) (bs : List (Bytes × Bucket))
    → AllOwn l bs
    → find_bucket key bs ≡ some b
    → IsOwn l b
unfolding find_bucket
find-IsOwn l key b [] o h = cc
find-IsOwn l key b ((k, c) ∷ rest) (oc, o) h = elim (Bool-cases (same key k)) [
  | inl e ↦
      let q : some c ≡ some b = rw e at h in
      let same_bucket : c ≡ b = cc in subst (IsOwn l) same_bucket oc
  | inr e ↦ find-IsOwn l key b rest o (rw e at h)
]

-- After `idle` the bucket is as full as a new one.
refill_idle :
    (l : Limiter) (t now : ℕ) (b : Bucket)
    → IsOwn l b
    → l.capacity ≤ l.idle * l.rate
    → b.last_refil + l.idle < t
    → t ≤ now
    → refill now b ≡ refill now (full_bucket l now)
unfolding refill full_bucket
refill_idle l t now b (c, u, r) h i le =
    let long : l.idle * l.rate ≤ (now - b.last_refil) * b.rate = omega (
      arith,
      ap (λ x. (now - b.last_refil) * x) r,
      mul_comm l.idle l.rate,
      mul_comm (now - b.last_refil) l.rate,
      mul-le-mul_left {m = l.idle} {n = now - b.last_refil} l.rate (omega arith),
    ) in
    let more = b.tokens + (now - b.last_refil) * b.rate in
    let full : (if ltb b.capacity more then b.capacity else more) ≡ l.capacity =
      ground (arith, long, c, h) in
    let later : ltb b.last_refil now ≡ true = ground (arith, i, le) in
    let not_later : ltb now now ≡ false = ground arith in rw (later, not_later, full, c, u, r) refl

kept_answer :
    (l : Limiter) (t now : ℕ) (o : Option Bucket)
    → ((b : Bucket) → o ≡ some b → IsOwn l b)
    → l.capacity ≤ l.idle * l.rate
    → t ≤ now
    → (take now (bucket_now l now (unless_idle l.idle t o))).1 ≡ (take now (bucket_now l now o)).1
unfolding take
kept_answer l t now none own h le = refl
kept_answer l t now (some b) own h le = elim (Bool-cases (ltb (b.last_refil + l.idle) t)) [
  | inl i ↦
      rw i (ap (λ x. (spend x).1) (sym (refill_idle l t now b (own b refl) h (ground arith) le)))
  | inr i ↦ rw i refl
]

-- Collecting at `t` does not show: where a bucket gains its capacity within the idle time and the
-- buckets are the limiter's own, a take at any later time is answered as it would have been.
gc_unseen :
    (l : Limiter) (t now : ℕ) (key : Bytes)
    → Unique l.buckets
    → AllOwn l l.buckets
    → l.capacity ≤ l.idle * l.rate
    → t ≤ now
    → (take_key now key (record l { buckets = gc_locked l.idle t l.buckets })).1
      ≡ (take_key now key l).1
unfolding full_bucket
gc_unseen l t now key u o h le =
    let l' = record l { buckets = gc_locked l.idle t l.buckets } in
    let found = find-gc_locked l.idle t key l.buckets u in
    take_key_answer now key l'
    ∙ ap (λ x. (take now (bucket_now l now x)).1) found
    ∙ kept_answer l t now (find_bucket key l.buckets) (λ b e. find-IsOwn l key b l.buckets o e) h le
    ∙ sym (take_key_answer now key l)

replace-none :
    (key : Bytes) (b : Bucket) (bs : List (Bytes × Bucket))
    → find_bucket key bs ≡ none
    → find_bucket key (replace_bucket key b bs) ≡ none
unfolding find_bucket replace_bucket
replace-none key b [] h = refl
replace-none key b ((k, c) ∷ rest) h = elim (Bool-cases (same key k)) [
  | inl e ↦ let q : some c ≡ none = rw e at h in cc
  | inr e ↦
      let h' : find_bucket key rest ≡ none = rw e at h in rw (e, e) (replace-none key b rest h')
]

-- A take whose own collection finds its bucket idle leaves no bucket for the key: the token that
-- it took is not counted.
pub take_key_orphan :
    (now : ℕ) (key : Bytes) (l : Limiter) (b : Bucket)
    → Unique l.buckets
    → find_bucket key l.buckets ≡ some b
    → b.last_refil + l.idle < now
    → l.last_gc + l.gc_every < now
    → find_bucket key (take_key now key l).0.buckets ≡ none
unfolding take_key bucket_for collect
take_key_orphan now key l b u f i g =
    let due : ltb (l.last_gc + l.gc_every) now ≡ true = ground (arith, g) in
    let idle : ltb (b.last_refil + l.idle) now ≡ true = ground (arith, i) in
    rw (f, due)
      (replace-none key (take now b).0 (gc_locked l.idle now l.buckets) (
        find-gc_locked l.idle now key l.buckets u
        ∙ ap (unless_idle l.idle now) f
        ∙ ap (λ x. if x then none else some b) idle))

found-Unique :
    (l : Limiter) (now : ℕ) (key : Bytes) (o : Option Bucket)
    → find_bucket key l.buckets ≡ o
    → Unique l.buckets
    → Unique (found_bucket l now key o).1
found-Unique l now key none e u = (e, u)
found-Unique l now key (some b) e u = u

found-other :
    (l : Limiter) (now : ℕ) (key other : Bytes) (o : Option Bucket)
    → same other key ≡ false
    → find_bucket other (found_bucket l now key o).1 ≡ find_bucket other l.buckets
unfolding find_bucket
found-other l now key other none n = rw n refl
found-other l now key other (some b) n = refl

collect-fresh :
    (l : Limiter) (now : ℕ) (other : Bytes) (b : Bucket) (bs : List (Bytes × Bucket))
    → Unique bs
    → find_bucket other bs ≡ some b
    → now ≤ b.last_refil + l.idle
    → find_bucket other (collect l now bs).buckets ≡ some b
unfolding collect
collect-fresh l now other b bs u f fresh =
    let still : ltb (b.last_refil + l.idle) now ≡ false = ground (arith, fresh) in
    elim (Bool-cases (ltb (l.last_gc + l.gc_every) now)) [
      | inl g ↦ rw g (
          find-gc_locked l.idle now other bs u
          ∙ ap (unless_idle l.idle now) f
          ∙ ap (λ x. if x then none else some b) still)
      | inr g ↦ rw g f
    ]

-- A take for one key leaves the bucket of any other key that is not idle as it was, whether or not
-- it collects.
take_key_other :
    (now : ℕ) (key other : Bytes) (l : Limiter) (b : Bucket)
    → Unique l.buckets
    → same other key ≡ false
    → find_bucket other l.buckets ≡ some b
    → now ≤ b.last_refil + l.idle
    → find_bucket other (take_key now key l).0.buckets ≡ some b
unfolding take_key bucket_for
take_key_other now key other l b u n f fresh =
    let start = bucket_for l now key in
    find-replace_bucket key other (take now start.0).0 (collect l now start.1).buckets n
    ∙ collect-fresh l now other b start.1
        (found-Unique l now key (find_bucket key l.buckets) refl u)
        (found-other l now key other (find_bucket key l.buckets) n ∙ f) fresh
