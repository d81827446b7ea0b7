-- ===== src/Cache/Store/Puts.antt =====
-- Put, and Get after it.
use cncache_hub.Prelude.{
  ℕ, ◌≡◌, refl, sym, ap, ap₂, ◌∙◌, Bool, true, false, Option, none, some, List, [], ◌∷◌,
  if◌then◌else◌, length, arith, ok,
}
use cncache_hub.Prelude.Int.{ℤ, pos}
use cncache_hub.Text.{Bytes, same}
use cncache_hub.Text.Equality.{same_refl}
use cncache_hub.Cache.Policy.{bypass_none, size_limit, should_bypass}
use cncache_hub.Cache.Disk.{Disk, update_lem, update}
use cncache_hub.Cache.Stream.{
  Writer, CacheError, CloseFaults, no_faults, close, write_all, write, full, read_failed,
  bypass_error,
}
use cncache_hub.Cache.Stream.Writes.{
  IsLive, IsCapped, concat, all_full, exceeds, write_all-IsLive, write_all-IsCapped,
  write_all-SameFile, write_all-ne,
}
use cncache_hub.Cache.Stream.Closing.{close-IsLive, close-IsCapped}
use cncache_hub.Cache.Store.{
  FileStore, OpenFaults, open_stream, copy, put, get, path_of, file_writer, put_opened, put_copied,
}

-- A key that has a place, a policy that lets the object in, a directory and a temporary file.
pub record IsReady (avail : Bytes → ℤ) (f : OpenFaults) (s : FileStore)
    (registry repo digest : Bytes) (size : ℤ) (target : Bytes) : Type 0 where
  pub admitted : (should_bypass avail s.pol size).1 ≡ false
  pub placed : path_of s registry repo digest ≡ ok target
  pub made : f.mkdir_fails ≡ false
  pub created : f.create_fails ≡ false
  pub apart : same f.tmp_name target ≡ false

write_full_ok :
    (disk : Disk) (w : Writer) (p : Bytes)
    → w.closed ≡ false
    → ((write full disk w p).3 ≡ none) × ((write full disk w p).1.closed ≡ false)
unfolding write
write_full_ok disk w p h = ground arith

copy-write_all :
    (disk : Disk) (w : Writer) (ps : List Bytes) (breaks : Bool)
    → w.closed ≡ false
    → copy disk w (all_full ps) breaks ≡ (
      (write_all disk w (all_full ps)).0,
      (write_all disk w (all_full ps)).1,
      if breaks then some read_failed else none,
    )
unfolding copy write_all
copy-write_all disk w [] breaks h = refl
copy-write_all disk w (p ∷ ps) breaks h =
    let (no_error, still_open) = write_full_ok disk w p h in
    rw (copy, no_error)
      (copy-write_all (write full disk w p).0 (write full disk w p).1 ps breaks still_open)

bypass-close : (g : CloseFaults) (disk : Disk) (w : Writer) → (close g disk w).1.bypass ≡ w.bypass
unfolding close
bypass-close g disk w = ground arith

reason-close : (g : CloseFaults) (disk : Disk) (w : Writer) → (close g disk w).1.reason ≡ w.reason
unfolding close
reason-close g disk w = ground arith

-- What Put makes of a live writer when the kernel does all that it is asked.
put_copied-IsLive :
    (disk : Disk) (w : Writer) (c : Bytes) (e : Option CacheError)
    → IsLive disk w c
    → same w.tmp_path w.target ≡ false
    → ((put_copied no_faults (disk, w, e)).0 w.target ≡ some c)
      × ((put_copied no_faults (disk, w, e)).1 ≡ bypass_none)
      × ((put_copied no_faults (disk, w, e)).2 ≡ e)
unfolding put_copied
put_copied-IsLive disk w c none l n =
    ground (arith, close-IsLive disk w c l n, bypass-close no_faults disk w, l.kept)
put_copied-IsLive disk w c (some e) l n = ground (arith, close-IsLive disk w c l n)

put_copied-IsCapped :
    (disk : Disk) (w : Writer) (n : ℕ)
    → IsCapped disk w n
    → put_copied no_faults (disk, w, none) ≡ (disk, size_limit, some (bypass_error size_limit))
unfolding put_copied
put_copied-IsCapped disk w n c = ground (
  arith,
  close-IsCapped no_faults disk w n c,
  bypass-close no_faults disk w,
  reason-close no_faults disk w,
  c.bypassed,
  c.why,
)

pub get-some :
    (disk : Disk) (s : FileStore) (registry repo digest target c : Bytes)
    → path_of s registry repo digest ≡ ok target
    → disk target ≡ some c
    → get false false disk s registry repo digest ≡ ok (c, length c)
unfolding get
get-some disk s registry repo digest target c e h = rw (e, h)

exceeds_zero : (max : ℤ) → exceeds max 0 ≡ false
exceeds_zero (pos m) = ground arith
exceeds_zero (ℤ.negsuc m) = ground arith

module _ (avail : Bytes → ℤ) (f : OpenFaults) (disk : Disk) (s : FileStore)
    (registry repo digest : Bytes) (size : ℤ) (target : Bytes)
    (ready : IsReady avail f s registry repo digest size target) where
  pub open_stream-ready :
      open_stream avail f disk s registry repo digest size
      ≡ (update disk f.tmp_name (some []), ok (file_writer s f.tmp_name target))
  unfolding open_stream
  open_stream-ready = rw (ready.admitted, ready.placed, ready.made, ready.created)

  opened-IsLive : IsLive (update disk f.tmp_name (some [])) (file_writer s f.tmp_name target) []
  opened-IsLive = record {
    kept = refl;
    open_file = refl;
    not_closed = refl;
    stored = rw (update_lem, same_refl);
    counted = refl;
  }

  put-chunks :
      (g : CloseFaults) (ps : List Bytes) (breaks : Bool)
      → put avail f g disk s registry repo digest size
          (record { chunks = all_full ps; breaks = breaks })
        ≡ put_copied g (
          (write_all
              (update disk f.tmp_name (some []))
              (file_writer s f.tmp_name target)
              (all_full ps)).0,
          (write_all
              (update disk f.tmp_name (some []))
              (file_writer s f.tmp_name target)
              (all_full ps)).1,
          if breaks then some read_failed else none,
        )
  unfolding put put_opened
  put-chunks g ps breaks =
      ap (λ t. put_opened g t (record { chunks = all_full ps; breaks = breaks })) open_stream-ready
      ∙ ap (put_copied g) (copy-write_all _ (file_writer s f.tmp_name target) ps breaks refl)

  pub written-IsLive :
      (ps : List Bytes)
      → exceeds s.pol.max_object_size (length (concat ps)) ≡ false
      → let r =
          write_all
            (update disk f.tmp_name (some []))
            (file_writer s f.tmp_name target)
            (all_full ps) in
        IsLive r.0 r.1 (concat ps) × (r.1.target ≡ target) × (same r.1.tmp_path r.1.target ≡ false)
  written-IsLive ps fits =
      let same_file =
        write_all-SameFile (update disk f.tmp_name (some [])) (file_writer s f.tmp_name target)
          (all_full ps) in
      (
        write_all-IsLive _ (file_writer s f.tmp_name target) [] ps opened-IsLive fits,
        same_file.target,
        ap₂ same same_file.tmp_path same_file.target ∙ ready.apart,
      )

  put-within :
      (ps : List Bytes) (breaks : Bool)
      → exceeds s.pol.max_object_size (length (concat ps)) ≡ false
      → let r =
          put avail f no_faults disk s registry repo digest size
            (record { chunks = all_full ps; breaks = breaks }) in
        (r.1 ≡ bypass_none)
        × (r.2 ≡ (if breaks then some read_failed else none))
        × (r.0 target ≡ some (concat ps))
  put-within ps breaks fits =
      let (l, t, n) = written-IsLive ps fits in
      let (at, r, e) =
        put_copied-IsLive _ _ (concat ps) (if breaks then some read_failed else none) l n in
      rw put-chunks (r, e, cc (t, at))

  -- A body that is read and written to its end, within the limit, is stored whole: Put answers no
  -- bypass and no error, and Get gives the same bytes back with their number.
  pub get-put :
      (ps : List Bytes)
      → exceeds s.pol.max_object_size (length (concat ps)) ≡ false
      → let r =
          put avail f no_faults disk s registry repo digest size
            (record { chunks = all_full ps; breaks = false }) in
        (r.1 ≡ bypass_none)
        × (r.2 ≡ none)
        × (get false false r.0 s registry repo digest ≡ ok (concat ps, length (concat ps)))
  get-put ps fits =
      let (r, e, at) = put-within ps false fits in
      (r, e, get-some _ s registry repo digest target (concat ps) ready.placed at)

  -- A body that breaks off after some chunks, within the limit: Put answers the reader's error, and
  -- the bytes that came before it are stored as if they were the blob.
  put_broken_body :
      (ps : List Bytes)
      → exceeds s.pol.max_object_size (length (concat ps)) ≡ false
      → let r =
          put avail f no_faults disk s registry repo digest size
            (record { chunks = all_full ps; breaks = true }) in
        (r.2 ≡ some read_failed)
        × (get false false r.0 s registry repo digest ≡ ok (concat ps, length (concat ps)))
  put_broken_body ps fits =
      let (r, e, at) = put-within ps true fits in
      (e, get-some _ s registry repo digest target (concat ps) ready.placed at)

  -- A body that passes the limit while it is written: Put
  -- answers the size limit as bypass and error, every file but the temporary one is as it was, and
  -- the temporary one is gone.
  put_over_limit :
      (ps : List Bytes)
      → exceeds s.pol.max_object_size (length (concat ps)) ≡ true
      → let r =
          put avail f no_faults disk s registry repo digest size
            (record { chunks = all_full ps; breaks = false }) in
        (r.1 ≡ size_limit)
        × (r.2 ≡ some (bypass_error size_limit))
        × (r.0 f.tmp_name ≡ none)
        × ((q : Bytes) → same f.tmp_name q ≡ false → r.0 q ≡ disk q)
  put_over_limit ps over =
      let d = update disk f.tmp_name (some []) in
      let w = file_writer s f.tmp_name target in
      let c =
        write_all-IsCapped d w [] ps opened-IsLive (exceeds_zero s.pol.max_object_size) over in
      let e = put-chunks no_faults ps false ∙ put_copied-IsCapped _ _ (length (concat ps)) c in
      let same_file = write_all-SameFile d w (all_full ps) in
      rw e (
        refl,
        refl,
        ap (write_all d w (all_full ps)).0 (sym same_file.tmp_path) ∙ c.removed,
        λ q n. write_all-ne d w (all_full ps) q n ∙ rw (update_lem, n),
      )
