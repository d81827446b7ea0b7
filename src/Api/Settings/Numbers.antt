-- ===== src/Api/Settings/Numbers.antt =====
-- The numbers of the settings as texts: what itoa writes, atoi reads.
use cncache_hub.Prelude.{
  ℕ, zero, suc, ◌+◌, ◌/◌, ◌%◌, ◌^◌, ◌<◌, ◌≡◌, refl, true, false, [], ◌∷◌, if◌then◌else◌, Bool-cases,
  inl, inr, arith, ltb, ◌==◌,
}
use cncache_hub.Prelude.Int.{ℤ, pos}
use cncache_hub.Text.{Bytes, codes, is_empty}
use cncache_hub.Proxy.Route.{digits, itoa}
use cncache_hub.Proxy.Route.Paths.{value-itoa}
use cncache_hub.Api.Settings.{all_digits, read_positive, atoi, atoi_safe}

digits-all_digits :
    (fuel n : ℕ) (buf : Bytes) → all_digits buf ≡ true → all_digits (digits fuel n buf) ≡ true
unfolding digits all_digits
digits-all_digits zero n buf h = h
digits-all_digits (suc fuel) n buf h = elim (Bool-cases (n == 0)) [
  | inl e ↦ rw e h
  | inr e ↦ rw e (digits-all_digits fuel (n / 10) ((48 + n % 10) ∷ buf) (ground arith))
]

text-all_digits : (fuel n : ℕ) → all_digits (if n == 0 then codes "0" else digits fuel n []) ≡ true
unfolding all_digits
text-all_digits fuel n = elim (Bool-cases (n == 0)) [
  | inl e ↦ rw e refl
  | inr e ↦ rw e (digits-all_digits fuel n [] refl)
]

itoa-all_digits : (n : ℕ) → all_digits (itoa (pos n)) ≡ true
unfolding itoa
itoa-all_digits n = text-all_digits 20 n

-- A text of digits that is not empty begins with a digit, so it has no sign.
atoi_digits : (s : Bytes) → is_empty s ≡ false → all_digits s ≡ true → atoi s ≡ read_positive s
unfolding atoi all_digits
atoi_digits [] e h = cc
atoi_digits (c ∷ s) e h =
    let minus : (c == b'-') ≡ false = ground arith in
    let plus : (c == b'+') ≡ false = ground arith in rw (minus, plus) refl

digits_filled :
    (fuel n : ℕ) (buf : Bytes) → is_empty buf ≡ false → is_empty (digits fuel n buf) ≡ false
unfolding digits
digits_filled zero n buf h = h
digits_filled (suc fuel) n buf h = elim (Bool-cases (n == 0)) [
  | inl e ↦ rw e h
  | inr e ↦ rw e (digits_filled fuel (n / 10) ((48 + n % 10) ∷ buf) refl)
]

text_filled : (fuel n : ℕ) → is_empty (if n == 0 then codes "0" else digits (suc fuel) n []) ≡ false
unfolding digits
text_filled fuel n = elim (Bool-cases (n == 0)) [
  | inl e ↦ rw e refl
  | inr e ↦ rw e (digits_filled fuel (n / 10) ((48 + n % 10) ∷ []) refl)
]

itoa_filled : (n : ℕ) → is_empty (itoa (pos n)) ≡ false
unfolding itoa
itoa_filled n = text_filled 19 n

-- A number from 0 that an int64 holds is read back from its text, whatever the fallback.
pub atoi_safe-itoa : (n : ℕ) (fallback : ℤ) → n < 2 ^ 63 → atoi_safe (itoa (pos n)) fallback ≡ pos n
unfolding atoi_safe read_positive
atoi_safe-itoa n fallback h =
    let fits : ltb n (2 ^ 63) ≡ true = ground arith in
    let read = atoi_digits (itoa (pos n)) (itoa_filled n) (itoa-all_digits n) in
    rw (atoi_safe, itoa_filled n, read)
      (rw (read_positive, itoa_filled n, itoa-all_digits n, value-itoa n h) (rw fits refl))
