-- ===== src/Storage/Cleanup/Rows.antt =====
-- Rows with distinct ids: selecting, ordering and deleting them.
use cncache_hub.Prelude.{
  ℕ, zero, suc, ◌+◌, ◌≡◌, ◌≢◌, refl, sym, ap, ◌∙◌, Bool, true, some, List, [], ◌∷◌, if◌then◌else◌,
  length, leb, take, All, All-map, arith, min, length-take, Bool-cases, inl, inr,
}
use cncache_hub.Storage.Entries.{CacheEntry, get_cache_entry_by_id}
use cncache_hub.Storage.Cleanup.{select, insert_by_access, order_by_access, oldest}

abbrev pub AllNe : ℕ → List CacheEntry → Type 0
AllNe i = All (λ e. i ≢ e.id)

-- The primary key.
abbrev pub Distinct : List CacheEntry → Type 0
Distinct [] = Unit
Distinct (x ∷ xs) = AllNe x.id xs × Distinct xs

-- The row is in the table under its id.
abbrev pub Holds : List CacheEntry → CacheEntry → Type 0
Holds rows b = get_cache_entry_by_id rows b.id ≡ some b

pub select-All :
    (P : CacheEntry → Type 0) (p : CacheEntry → Bool) (rows : List CacheEntry)
    → All P rows
    → All P (select p rows)
unfolding select
select-All P p [] h = tt
select-All P p (x ∷ xs) (hx, h) = elim (Bool-cases (p x)) [
  | inl e ↦ rw e (hx, select-All P p xs h)
  | inr e ↦ rw e (select-All P p xs h)
]

pub select_sound :
    (p : CacheEntry → Bool) (rows : List CacheEntry) → All (λ e. p e ≡ true) (select p rows)
unfolding select
select_sound p [] = tt
select_sound p (x ∷ xs) = elim (Bool-cases (p x)) [
  | inl e ↦ rw e (e, select_sound p xs)
  | inr e ↦ rw e (select_sound p xs)
]

insert-All :
    (P : CacheEntry → Type 0) (x : CacheEntry) (rows : List CacheEntry)
    → P x
    → All P rows
    → All P (insert_by_access x rows)
unfolding insert_by_access
insert-All P x [] hx h = (hx, tt)
insert-All P x (y ∷ ys) hx (hy, h) = elim (Bool-cases (leb x.last_access_at y.last_access_at)) [
  | inl e ↦ rw e (hx, (hy, h))
  | inr e ↦ rw e (hy, insert-All P x ys hx h)
]

order-All :
    (P : CacheEntry → Type 0) (rows : List CacheEntry) → All P rows → All P (order_by_access rows)
unfolding order_by_access
order-All P [] h = tt
order-All P (x ∷ xs) (hx, h) = insert-All P x (order_by_access xs) hx (order-All P xs h)

take-All :
    (P : CacheEntry → Type 0) (n : ℕ) (rows : List CacheEntry) → All P rows → All P (take n rows)
take-All P zero rows h = tt
take-All P (suc n) [] h = tt
take-All P (suc n) (x ∷ xs) (hx, h) = (hx, take-All P n xs h)

pub oldest-All :
    (P : CacheEntry → Type 0) (p : CacheEntry → Bool) (n : ℕ) (rows : List CacheEntry)
    → All P rows
    → All P (oldest p n rows)
unfolding oldest
oldest-All P p n rows h = take-All P n _ (order-All P _ (select-All P p rows h))

-- Each row of a batch passes the test of its SELECT.
pub oldest_sound :
    (p : CacheEntry → Bool) (n : ℕ) (rows : List CacheEntry)
    → All (λ e. p e ≡ true) (oldest p n rows)
unfolding oldest
oldest_sound p n rows =
    take-All (λ e. p e ≡ true) n _ (order-All (λ e. p e ≡ true) _ (select_sound p rows))

ne_sym : (x : CacheEntry) (rows : List CacheEntry) → AllNe x.id rows → All (λ e. e.id ≢ x.id) rows
ne_sym x rows = All-map (λ e. x.id ≢ e.id) (λ e. e.id ≢ x.id) (λ e n q. n (sym q)) rows

insert-Distinct :
    (x : CacheEntry) (rows : List CacheEntry)
    → AllNe x.id rows
    → Distinct rows
    → Distinct (insert_by_access x rows)
unfolding insert_by_access
insert-Distinct x [] n d = (tt, tt)
insert-Distinct x (y ∷ ys) (n, ns) (dy, d) =
    elim (Bool-cases (leb x.last_access_at y.last_access_at)) [
      | inl e ↦ rw e ((n, ns), (dy, d))
      | inr e ↦
          rw e (insert-All (λ z. y.id ≢ z.id) x ys (λ q. n (sym q)) dy, insert-Distinct x ys ns d)
    ]

order-Distinct : (rows : List CacheEntry) → Distinct rows → Distinct (order_by_access rows)
unfolding order_by_access
order-Distinct [] d = tt
order-Distinct (x ∷ xs) (n, d) =
    insert-Distinct x (order_by_access xs) (order-All (λ e. x.id ≢ e.id) xs n) (order-Distinct xs d)

select-Distinct :
    (p : CacheEntry → Bool) (rows : List CacheEntry) → Distinct rows → Distinct (select p rows)
unfolding select
select-Distinct p [] d = tt
select-Distinct p (x ∷ xs) (n, d) = elim (Bool-cases (p x)) [
  | inl e ↦ rw e (select-All (λ e. x.id ≢ e.id) p xs n, select-Distinct p xs d)
  | inr e ↦ rw e (select-Distinct p xs d)
]

take-Distinct : (n : ℕ) (rows : List CacheEntry) → Distinct rows → Distinct (take n rows)
take-Distinct zero rows d = tt
take-Distinct (suc n) [] d = tt
take-Distinct (suc n) (x ∷ xs) (h, d) = (take-All (λ e. x.id ≢ e.id) n xs h, take-Distinct n xs d)

pub oldest-Distinct :
    (p : CacheEntry → Bool) (n : ℕ) (rows : List CacheEntry)
    → Distinct rows
    → Distinct (oldest p n rows)
unfolding oldest
oldest-Distinct p n rows d = take-Distinct n _ (order-Distinct _ (select-Distinct p rows d))

Holds-cons :
    (x : CacheEntry) (rows : List CacheEntry) (b : CacheEntry)
    → (x.id ≢ b.id) × Holds rows b
    → Holds (x ∷ rows) b
unfolding get_cache_entry_by_id
Holds-cons x rows b (n, h) = ground (arith, n, h)

pub All-both :
    (i : ℕ) (Q : CacheEntry → Type 0) (xs : List CacheEntry)
    → AllNe i xs
    → All Q xs
    → All (λ e. (i ≢ e.id) × Q e) xs
All-both i Q [] hp hq = tt
All-both i Q (x ∷ xs) (p, hp) (q, hq) = ((p, q), All-both i Q xs hp hq)

-- With distinct ids every row is found under its id.
pub Distinct-Holds : (rows : List CacheEntry) → Distinct rows → All (Holds rows) rows
unfolding get_cache_entry_by_id
Distinct-Holds [] d = tt
Distinct-Holds (x ∷ xs) (n, d) = (
  ground arith,
  All-map (λ b. (x.id ≢ b.id) × Holds xs b) (Holds (x ∷ xs)) (Holds-cons x xs) xs
      (All-both x.id (Holds xs) xs n (Distinct-Holds xs d)),
)

length-insert :
    (x : CacheEntry) (rows : List CacheEntry) → length (insert_by_access x rows) ≡ suc (length rows)
unfolding insert_by_access
length-insert x [] = refl
length-insert x (y ∷ ys) = ground (arith, length-insert x ys)

length-order : (rows : List CacheEntry) → length (order_by_access rows) ≡ length rows
unfolding order_by_access
length-order [] = refl
length-order (x ∷ xs) = length-insert x (order_by_access xs) ∙ ap suc (length-order xs)

-- How many rows pass the test.
unfoldable pub count_of : (CacheEntry → Bool) → List CacheEntry → ℕ
count_of p [] = 0
count_of p (x ∷ xs) = (if p x then 1 else 0) + count_of p xs

length-select :
    (p : CacheEntry → Bool) (rows : List CacheEntry) → length (select p rows) ≡ count_of p rows
unfolding select count_of
length-select p [] = refl
length-select p (x ∷ xs) = ground (arith, length-select p xs)

-- A batch is as long as its limit and the table allow.
pub length-oldest :
    (p : CacheEntry → Bool) (n : ℕ) (rows : List CacheEntry)
    → length (oldest p n rows) ≡ min n (count_of p rows)
unfolding oldest
length-oldest p n rows =
    length-take n _ ∙ ap (min n) (length-order (select p rows) ∙ length-select p rows)
