-- ===== src/Cache/Stream/Closing.antt =====
-- What Close does: it puts a whole blob in its place, or leaves the place alone.
use cncache_hub.Prelude.{ℕ, ◌≡◌, false, none, some, arith, Option-cases, inl, inr}
use cncache_hub.Text.{Bytes, same}
use cncache_hub.Text.Equality.{same_refl, same_iff}
use cncache_hub.Cache.Disk.{Disk, remove, rename}
use cncache_hub.Cache.Stream.{Writer, CacheError, CloseFaults, no_faults, close, finish}
use cncache_hub.Cache.Stream.Writes.{IsLive, IsCapped}

-- Close a second time answers no error and changes neither the disk nor the writer, whatever
-- failed the first time.
pub close_twice :
    (f g : CloseFaults) (disk : Disk) (w : Writer)
    → let r = close f disk w in close g r.0 r.1 ≡ (r.0, r.1, none)
unfolding close
close_twice f g disk w = elim (Option-cases (disk w.tmp_path)) [
  | inl e ↦ rw (e, finish) (ground arith)
  | inr (c, e) ↦ rw (e, finish) (ground arith)
]

-- Where Close reports an error, no file but the temporary one has changed: the blob's place
-- keeps what it had.
close_error_keeps :
    (f : CloseFaults) (disk : Disk) (w : Writer) (e : CacheError) (q : Bytes)
    → (close f disk w).2 ≡ some e
    → same w.tmp_path q ≡ false
    → (close f disk w).0 q ≡ disk q
unfolding close remove
close_error_keeps f disk w e q h n = ground arith

-- Closing a live writer with no fault puts its bytes at the target and takes the temporary file
-- away.
pub close-IsLive :
    (disk : Disk) (w : Writer) (c : Bytes)
    → IsLive disk w c
    → same w.tmp_path w.target ≡ false
    → ((close no_faults disk w).2 ≡ none)
      × ((close no_faults disk w).0 w.target ≡ some c)
      × ((close no_faults disk w).0 w.tmp_path ≡ none)
unfolding close rename
close-IsLive disk w c l n = ground (
  arith,
  same_refl w.target,
  same_refl w.tmp_path,
  same_iff w.tmp_path w.target,
  same_iff w.target w.tmp_path,
)

pub close-IsCapped :
    (f : CloseFaults) (disk : Disk) (w : Writer) (n : ℕ)
    → IsCapped disk w n
    → ((close f disk w).2 ≡ none) × ((close f disk w).0 ≡ disk)
unfolding close
close-IsCapped f disk w n c = ground arith
