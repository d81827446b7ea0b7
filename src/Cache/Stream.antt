-- ===== src/Cache/Stream.antt =====
-- `fileStreamWriter` of cache.go: a blob is written to a temporary file, which Close renames to its
-- place. An atomic.Int64 or atomic.Bool is its value; the writer is used by one goroutine.
pub mod Writes
pub mod Closing
use cncache_hub.Prelude.{
  ℕ, ◌+◌, Bool, true, false, not, ◌&&◌, Option, none, some, List, [], ◌∷◌, ◌++◌, if◌then◌else◌,
  length, take,
}
use cncache_hub.Prelude.Int.{ℤ, pos, lt_ℤ}
use cncache_hub.Text.{Bytes}
use cncache_hub.Cache.Policy.{BypassReason, bypass_none, size_limit}
use cncache_hub.Cache.Key.{KeyError}
use cncache_hub.Cache.Disk.{Disk, append_file, remove, rename}

pub data CacheError : Type 0 where
  key_error : KeyError → CacheError
  mkdir_failed create_failed write_failed write_after_close : CacheError
  sync_failed close_failed rename_failed : CacheError
  stat_failed open_failed remove_failed not_found read_failed : CacheError
  bypass_error : BypassReason → CacheError

-- `tmp` says whether the field `tmp` holds a file (it is nil for a bypass).
pub record Writer : Type 0 where
  pub tmp : Bool
  pub tmp_path : Bytes
  pub target : Bytes
  pub fsync : Bool
  pub max_bytes : ℤ
  pub written : ℕ
  pub closed : Bool
  pub finished : Bool
  pub bypass : Bool
  pub reason : BypassReason
  pub failure : Option CacheError

-- What the kernel makes of one write: all of it, or `short n` bytes and an error.
pub data WriteOutcome : Type 0 where
  full : WriteOutcome
  short : ℕ → WriteOutcome

abbrev pub taken : WriteOutcome → Bytes → Bytes
taken full p = p
taken (short n) p = take n p

-- The size check after a write: too large an object becomes a bypass, and its file goes.
limit_size : Disk → Writer → Disk × Writer
limit_size disk w =
    if lt_ℤ (pos 0) w.max_bytes && lt_ℤ w.max_bytes (pos w.written)
    then (remove disk w.tmp_path, record w { bypass = true; reason = size_limit; tmp = false })
    else (disk, w)

after_write : WriteOutcome → Disk → Writer → Disk × Writer × Option CacheError
unfolding limit_size
after_write full disk w = let (d, v) = limit_size disk w in (d, v, none)
after_write (short n) disk w = (disk, record w { failure = some write_failed }, some write_failed)

-- Write: the disk, the writer, the bytes taken and the error.
unfoldable pub write : WriteOutcome → Disk → Writer → Bytes → Disk × Writer × ℕ × Option CacheError
unfolding after_write
write outcome disk w p =
    if w.bypass
    then (disk, record w { written = w.written + length p }, length p, none)
    else if w.closed
    then (disk, w, 0, some write_after_close)
    else let q = taken outcome p in
      let (d, v, e) =
        after_write outcome (append_file disk w.tmp_path q)
          (record w { written = w.written + length q }) in
      (d, v, length q, e)

-- Which of the kernel's calls under Close fail.
pub record CloseFaults : Type 0 where
  pub sync_fails : Bool
  pub close_fails : Bool
  pub rename_fails : Bool

abbrev pub no_faults : CloseFaults
no_faults = record { sync_fails = false; close_fails = false; rename_fails = false }

-- os.Rename, and what follows it. It fails too if the temporary file is gone.
finish : Bool → Disk → Writer → Option Bytes → Disk × Writer × Option CacheError
finish false disk w (some contents) =
    (rename disk w.tmp_path w.target contents, record w { finished = true }, none)
finish _ disk w _ =
    (remove disk w.tmp_path, record w { failure = some rename_failed }, some rename_failed)

-- Close
unfoldable pub close : CloseFaults → Disk → Writer → Disk × Writer × Option CacheError
unfolding finish
close faults disk w =
    if w.closed
    then (disk, w, none)
    else let v = record w { closed = true } in
      if w.bypass
      then (disk, record v { finished = true }, none)
      else if not w.tmp
      then (disk, record v { finished = true }, none)
      else if w.fsync && faults.sync_fails
      then (remove disk w.tmp_path, record v { failure = some sync_failed }, some sync_failed)
      else if faults.close_fails
      then (disk, record v { failure = some close_failed }, some close_failed)
      else finish faults.rename_fails disk v (disk w.tmp_path)

-- A run of writes, one after the other, whatever each of them answers.
unfoldable pub write_all : Disk → Writer → List (WriteOutcome × Bytes) → Disk × Writer
write_all disk w [] = (disk, w)
write_all disk w ((o, p) ∷ ps) = let (d, v, n, e) = write o disk w p in write_all d v ps
