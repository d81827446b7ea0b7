-- ===== src/Cache/Stream/Writes.antt =====
-- What a run of writes does to the disk and to the writer.
use cncache_hub.Prelude.{
  ℕ, ◌+◌, ◌≤◌, ◌≡◌, refl, sym, ap, ◌∙◌, Bool, true, false, ◌&&◌, none, some, List, [], ◌∷◌, ◌++◌,
  length, take, arith, length-append, append_assoc, append-nil, subst, Bool-cases, inl, inr,
}
use cncache_hub.Prelude.Int.{ℤ, pos, lt_ℤ}
use cncache_hub.Text.{Bytes, same}
use cncache_hub.Text.Equality.{same_refl}
use cncache_hub.Cache.Policy.{size_limit}
use cncache_hub.Cache.Disk.{Disk, append_file, remove}
use cncache_hub.Cache.Stream.{Writer, WriteOutcome, full, short, write, write_all}

append_file-ne :
    (disk : Disk) (path p q : Bytes) → same path q ≡ false → append_file disk path p q ≡ disk q
unfolding append_file
append_file-ne disk path p q h = ground arith

-- A write leaves every file alone but the temporary one.
write-ne :
    (o : WriteOutcome) (disk : Disk) (w : Writer) (p q : Bytes)
    → same w.tmp_path q ≡ false
    → (write o disk w p).0 q ≡ disk q
unfolding write remove
write-ne full disk w p q h = ground (arith, append_file-ne disk w.tmp_path p q h)
write-ne (short n) disk w p q h = ground (arith, append_file-ne disk w.tmp_path (take n p) q h)

-- A write does not change where the writer writes to, nor whether it is closed.
pub record SameFile (v w : Writer) : Type 0 where
  pub tmp_path : v.tmp_path ≡ w.tmp_path
  pub target : v.target ≡ w.target
  pub closed : v.closed ≡ w.closed

write-SameFile :
    (o : WriteOutcome) (disk : Disk) (w : Writer) (p : Bytes) → SameFile (write o disk w p).1 w
unfolding write
write-SameFile full disk w p = ground arith
write-SameFile (short n) disk w p = ground arith

pub write_all-SameFile :
    (disk : Disk) (w : Writer) (ps : List (WriteOutcome × Bytes))
    → SameFile (write_all disk w ps).1 w
unfolding write_all
write_all-SameFile disk w [] = record { tmp_path = refl; target = refl; closed = refl }
write_all-SameFile disk w ((o, p) ∷ ps) =
    let (d, v, n, e) = write o disk w p in
    let a = write_all-SameFile d v ps in
    let b = write-SameFile o disk w p in
    record {
      tmp_path = a.tmp_path ∙ b.tmp_path;
      target = a.target ∙ b.target;
      closed = a.closed ∙ b.closed;
    }

-- Whatever the writes and their outcomes, no file but the temporary one changes before Close: a
-- reader sees a blob's old contents, or none.
pub write_all-ne :
    (disk : Disk) (w : Writer) (ps : List (WriteOutcome × Bytes)) (q : Bytes)
    → same w.tmp_path q ≡ false
    → (write_all disk w ps).0 q ≡ disk q
unfolding write_all
write_all-ne disk w [] q h = refl
write_all-ne disk w ((o, p) ∷ ps) q h =
    let (d, v, n, e) = write o disk w p in
    write_all-ne d v ps q (ap (λ t. same t q) (write-SameFile o disk w p).tmp_path ∙ h)
    ∙ write-ne o disk w p q h

-- Over the limit, where there is one.
abbrev pub exceeds : ℤ → ℕ → Bool
exceeds max n = lt_ℤ (pos 0) max && lt_ℤ max (pos n)

-- A writer whose temporary file holds all that it was given.
pub record IsLive (disk : Disk) (w : Writer) (contents : Bytes) : Type 0 where
  pub kept : w.bypass ≡ false
  pub open_file : w.tmp ≡ true
  pub not_closed : w.closed ≡ false
  pub stored : disk w.tmp_path ≡ some contents
  pub counted : w.written ≡ length contents

-- A writer that met the limit: its file is gone, and it only counts.
pub record IsCapped (disk : Disk) (w : Writer) (n : ℕ) : Type 0 where
  pub bypassed : w.bypass ≡ true
  pub why : w.reason ≡ size_limit
  pub no_file : w.tmp ≡ false
  pub not_closed : w.closed ≡ false
  pub removed : disk w.tmp_path ≡ none
  pub counted : w.written ≡ n

append_file_self :
    (disk : Disk) (path p c : Bytes)
    → disk path ≡ some c
    → append_file disk path p path ≡ some (c ++ p)
unfolding append_file
append_file_self disk path p c h = ground (arith, same_refl path)

write-IsLive :
    (disk : Disk) (w : Writer) (c p : Bytes)
    → IsLive disk w c
    → exceeds w.max_bytes (length (c ++ p)) ≡ false
    → IsLive (write full disk w p).0 (write full disk w p).1 (c ++ p)
unfolding write
write-IsLive disk w c p l h =
    ground (arith, append_file_self disk w.tmp_path p c l.stored, length-append c p)

write-IsCapped :
    (disk : Disk) (w : Writer) (c p : Bytes)
    → IsLive disk w c
    → exceeds w.max_bytes (length (c ++ p)) ≡ true
    → IsCapped (write full disk w p).0 (write full disk w p).1 (length (c ++ p))
unfolding write remove
write-IsCapped disk w c p l h =
    ground (
      arith,
      append_file_self disk w.tmp_path p c l.stored,
      length-append c p,
      same_refl w.tmp_path,
    )

write_over :
    (disk : Disk) (w : Writer) (n : ℕ) (p : Bytes)
    → IsCapped disk w n
    → IsCapped (write full disk w p).0 (write full disk w p).1 (n + length p)
unfolding write
write_over disk w n p c = ground arith

abbrev pub concat : List Bytes → Bytes
concat [] = []
concat (p ∷ ps) = p ++ concat ps

abbrev pub all_full : List Bytes → List (WriteOutcome × Bytes)
all_full [] = []
all_full (p ∷ ps) = (full, p) ∷ all_full ps

write_max :
    (o : WriteOutcome) (disk : Disk) (w : Writer) (p : Bytes)
    → (write o disk w p).1.max_bytes ≡ w.max_bytes
unfolding write
write_max full disk w p = ground arith
write_max (short n) disk w p = ground arith

exceeds_mono : (max : ℤ) (a b : ℕ) → a ≤ b → exceeds max b ≡ false → exceeds max a ≡ false
exceeds_mono (pos m) a b h e = ground arith
exceeds_mono (ℤ.negsuc m) a b h e = ground arith

write_all_over :
    (disk : Disk) (w : Writer) (n : ℕ) (ps : List Bytes)
    → IsCapped disk w n
    → IsCapped
        (write_all disk w (all_full ps)).0
        (write_all disk w (all_full ps)).1
        (n + length (concat ps))
unfolding write_all
write_all_over disk w n [] c = record {
  bypassed = c.bypassed;
  why = c.why;
  no_file = c.no_file;
  not_closed = c.not_closed;
  removed = c.removed;
  counted = omega arith;
}
write_all_over disk w n (p ∷ ps) c =
    let (d, v, k, e) = write full disk w p in
    subst (IsCapped _ _) (omega (arith, length-append p (concat ps)))
      (write_all_over d v (n + length p) ps (write_over disk w n p c))

-- Writes that succeed and stay within the limit leave all the bytes, in order, in the temporary file.
pub write_all-IsLive :
    (disk : Disk) (w : Writer) (c : Bytes) (ps : List Bytes)
    → IsLive disk w c
    → exceeds w.max_bytes (length (c ++ concat ps)) ≡ false
    → IsLive (write_all disk w (all_full ps)).0 (write_all disk w (all_full ps)).1 (c ++ concat ps)
unfolding write_all
write_all-IsLive disk w c [] l h = subst (IsLive disk w) (sym (append-nil c)) l
write_all-IsLive disk w c (p ∷ ps) l h =
    let (d, v, k, e) = write full disk w p in
    let fits =
      exceeds_mono w.max_bytes (length (c ++ p)) (length (c ++ (p ++ concat ps)))
        (omega
          (arith, length-append c p, length-append c (p ++ concat ps), length-append p (concat ps)))
        h in
    subst (IsLive _ _) (append_assoc c p (concat ps)) (
      write_all-IsLive d v (c ++ p) ps (write-IsLive disk w c p l fits)
        (rw (write_max full disk w p, append_assoc) h))

-- Writes that succeed but pass the limit leave no temporary file; the writer has become a bypass
-- and has counted every byte.
pub write_all-IsCapped :
    (disk : Disk) (w : Writer) (c : Bytes) (ps : List Bytes)
    → IsLive disk w c
    → exceeds w.max_bytes (length c) ≡ false
    → exceeds w.max_bytes (length (c ++ concat ps)) ≡ true
    → IsCapped
        (write_all disk w (all_full ps)).0
        (write_all disk w (all_full ps)).1
        (length (c ++ concat ps))
unfolding write_all
write_all-IsCapped disk w c [] l f h = cc (ap length (append-nil c))
write_all-IsCapped disk w c (p ∷ ps) l f h =
    let (d, v, k, e) = write full disk w p in
    let r = write_all d v (all_full ps) in
    elim (Bool-cases (exceeds w.max_bytes (length (c ++ p)))) [
      | inl over ↦
          subst (IsCapped r.0 r.1)
            (omega (
              arith,
              length-append c p,
              length-append c (p ++ concat ps),
              length-append p (concat ps),
            ))
            (write_all_over d v (length (c ++ p)) ps (write-IsCapped disk w c p l over))
      | inr fits ↦
          subst (λ t. IsCapped r.0 r.1 (length t)) (append_assoc c p (concat ps))
            (write_all-IsCapped d v (c ++ p) ps (write-IsLive disk w c p l fits)
              (rw (write_max full disk w p) fits) (rw (write_max full disk w p, append_assoc) h))
    ]
