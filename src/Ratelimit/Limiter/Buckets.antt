-- ===== src/Ratelimit/Limiter/Buckets.antt =====
-- One bucket: what it lets through over a time, and the wait that it answers.
use native.Mathlib.Nat.{lt-div-mul-add, mul_comm, mul-add, mul-le-mul_left}
use cncache_hub.Prelude.{
  ℕ, ◌+◌, ◌-◌, ◌*◌, ◌/◌, ◌≤◌, ◌<◌, ◌≡◌, refl, sym, ap₂, ◌∙◌, true, false, List, [], ◌∷◌,
  if◌then◌else◌, ltb, leb, arith, All, All-map, Bool-cases, inl, inr, subst,
}
use cncache_hub.Ratelimit.Limiter.{Bucket, refill, spend, take, millisecond}

add-mul : (a b c : ℕ) → (a + b) * c ≡ a * c + b * c
add-mul a b c =
    mul_comm (a + b) c ∙ mul-add c a b ∙ ap₂ (λ x y. x + y) (mul_comm c a) (mul_comm c b)

mul-le-mul_right : (a b c : ℕ) → a ≤ b → a * c ≤ b * c
mul-le-mul_right a b c h = omega (arith, mul_comm a c, mul_comm b c, mul-le-mul_left c h)

-- The takes at these times, one after the other, and how many were allowed.
unfoldable pub take_all : List ℕ → Bucket → Bucket × ℕ
take_all [] b = (b, 0)
take_all (t ∷ ts) b =
    let (b', allowed, wait) = take t b in
    let (b'', n) = take_all ts b' in (b'', (if allowed then 1 else 0) + n)

-- A take never leaves more tokens than the capacity.
pub take_capped :
    (now : ℕ) (b : Bucket)
    → b.tokens ≤ b.capacity
    → let r = take now b in (r.0.tokens ≤ r.0.capacity) × (r.0.capacity ≡ b.capacity)
unfolding take refill spend
take_capped now b h = ground arith

refill_later :
    (now : ℕ) (b : Bucket) (e : ℕ)
    → b.last_refil + e ≤ now
    → 0 < e
    → let r = refill now b in
      b.unit ≤ b.capacity → b.unit ≤ b.tokens + e * b.rate → leb r.unit r.tokens ≡ true
unfolding refill
refill_later now b e h z c m =
    let far = mul-le-mul_right e (now - b.last_refil) b.rate (omega arith) in
    ground (arith, far, m, c, z, h)

long_enough : (m r : ℕ) → 0 < r → m ≤ (m / r + millisecond) * r
long_enough m r z =
    let small = mul-le-mul_right 1 millisecond r (omega arith) in
    omega (arith, add-mul (m / r) millisecond r, lt-div-mul-add {a = m} z, small)

spend_denied :
    (b : Bucket)
    → (spend b).1 ≡ false
    → ((spend b).0 ≡ b) × ((spend b).2 ≡ (b.unit - b.tokens) / b.rate + millisecond)
unfolding spend
spend_denied b h = elim (Bool-cases (leb b.unit b.tokens)) [
  | inl e ↦ let q : true ≡ false = rw e at h in cc
  | inr e ↦ rw e (refl, refl)
]

refill_last : (now : ℕ) (b : Bucket) → b.last_refil ≤ now → (refill now b).last_refil ≤ now
unfolding refill
refill_last now b h = ground arith

refill_same :
    (now : ℕ) (b : Bucket)
    → let r = refill now b in (r.unit ≡ b.unit) × (r.rate ≡ b.rate) × (r.capacity ≡ b.capacity)
unfolding refill
refill_same now b = ground arith

spend_allowed : (b : Bucket) → leb b.unit b.tokens ≡ true → (spend b).1 ≡ true
unfolding spend
spend_allowed b h = rw h refl

after_wait :
    (now w : ℕ) (b : Bucket)
    → b.last_refil ≤ now
    → b.unit ≤ b.capacity
    → 0 < b.rate
    → w ≡ (b.unit - b.tokens) / b.rate + millisecond
    → (take (now + w) b).1 ≡ true
unfolding take
after_wait now w b l c z e =
    let long = long_enough (b.unit - b.tokens) b.rate z in
    spend_allowed (refill (now + w) b) (
      refill_later (now + w) b w (omega arith) (omega arith) c
        (omega (arith, subst (λ x. b.unit - b.tokens ≤ x * b.rate) (sym e) long)))

-- A bucket whose capacity is at least a token and whose rate is not 0 refuses a take at a time not
-- before its last refill: a take after the wait that it answered is allowed.
pub wait_suffices :
    (now : ℕ) (b : Bucket)
    → b.last_refil ≤ now
    → b.unit ≤ b.capacity
    → 0 < b.rate
    → (take now b).1 ≡ false
    → (take (now + (take now b).2) (take now b).0).1 ≡ true
wait_suffices now b l c z h =
    let r = refill now b in
    let h' : (spend r).1 ≡ false = unfold take in h in
    let (same, wait) = spend_denied r h' in
    let (u, v, k) = refill_same now b in
    let after =
      after_wait now (spend r).2 r (refill_last now b l) (omega arith) (omega arith) wait in
    unfold take in
    subst (λ x. (spend (refill (now + (spend r).2) x)).1 ≡ true) (sym same) (unfold take in after)

abbrev Gain : ℕ → Bucket → Bucket → Type 0
Gain w b r =
    (r.tokens + (w - (r.last_refil - b.last_refil)) * b.rate ≤ b.tokens + w * b.rate)
    × (b.last_refil ≤ r.last_refil)
    × (r.last_refil ≤ b.last_refil + w)

Gain-none : (b : Bucket) (w : ℕ) → Gain w b b
Gain-none b w =
    let z : b.last_refil - b.last_refil ≡ 0 = omega arith in
    rw z (ground arith, omega arith, omega arith)

refill-Gain : (t : ℕ) (b : Bucket) (w : ℕ) → t ≤ b.last_refil + w → Gain w b (refill t b)
unfolding refill
refill-Gain t b w h = elim (Bool-cases (ltb b.last_refil t)) [
  | inl e ↦
      let split = add-mul (t - b.last_refil) (w - (t - b.last_refil)) b.rate in
      let whole : t - b.last_refil + (w - (t - b.last_refil)) ≡ w = ground arith in
      let sum =
        subst (λ x. x * b.rate ≡ (t - b.last_refil) * b.rate + (w - (t - b.last_refil)) * b.rate)
          whole split in
      rw e (ground (arith, sum), ground arith, ground arith)
  | inr e ↦ rw e (Gain-none b w)
]

spend_cost :
    (b : Bucket)
    → let r = spend b in
      (r.0.tokens + (if r.1 then b.unit else 0) ≤ b.tokens)
      × (r.0.last_refil ≡ b.last_refil)
      × (r.0.rate ≡ b.rate)
      × (r.0.unit ≡ b.unit)
unfolding spend
spend_cost b = ground arith

take_cost :
    (t : ℕ) (b : Bucket) (w : ℕ)
    → t ≤ b.last_refil + w
    → let r = take t b in
      (r.0.tokens + (if r.1 then b.unit else 0) + (w - (r.0.last_refil - b.last_refil)) * b.rate
        ≤ b.tokens + w * b.rate)
      × (b.last_refil ≤ r.0.last_refil)
      × (r.0.last_refil ≤ b.last_refil + w)
      × (r.0.rate ≡ b.rate)
      × (r.0.unit ≡ b.unit)
unfolding take
take_cost t b w h =
    let r = refill t b in
    let (g, l, m) = refill-Gain t b w h in
    let (c, l', v, u) = spend_cost r in
    let (u', v', k) = refill_same t b in
    let g' =
      subst (λ x. r.tokens + (w - (x - b.last_refil)) * b.rate ≤ b.tokens + w * b.rate) (sym l')
        g in
    let c' = subst (λ x. (spend r).0.tokens + (if (spend r).1 then x else 0) ≤ r.tokens) u' c in
    (omega arith, omega arith, omega arith, v ∙ v', u ∙ u')

-- Whenever the takes come within `w` nanoseconds of the last refill, in any order, the tokens that
-- they get are at most those that the bucket had and what it gains in `w`.
pub take_all_bound :
    (ts : List ℕ) (b : Bucket) (w : ℕ)
    → All (λ t. t ≤ b.last_refil + w) ts
    → (take_all ts b).1 * b.unit ≤ b.tokens + w * b.rate
unfolding take_all
take_all_bound [] b w h = omega arith
take_all_bound (t ∷ ts) b w (h, hs) =
    let r = take t b in
    let rest = take_all ts r.0 in
    let (g, l, m, v, u) = take_cost t b w h in
    let w' = w - (r.0.last_refil - b.last_refil) in
    let later =
      All-map (λ x. x ≤ b.last_refil + w) (λ x. x ≤ r.0.last_refil + w') (λ x q. omega arith) ts
        hs in
    let ih = take_all_bound ts r.0 w' later in
    let ih' = subst (λ x. rest.1 * x ≤ r.0.tokens + w' * r.0.rate) u ih in
    let ih'' = subst (λ x. rest.1 * b.unit ≤ r.0.tokens + w' * x) v ih' in
    elim (Bool-cases r.1) [
      | inl e ↦ rw e (omega (arith, add-mul 1 rest.1 b.unit, ih'', (rw e at g)))
      | inr e ↦ rw e (omega (arith, ih'', (rw e at g)))
    ]
