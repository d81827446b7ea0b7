-- ===== src/Cache/Store.antt =====
-- `FileStore` of cache.go: the policy, Stat, Get, Delete, OpenStream and Put.
pub mod Puts
use cncache_hub.Prelude.{
  ℕ, Bool, true, false, not, ◌&&◌, Option, none, some, List, [], ◌∷◌, ◌++◌, if◌then◌else◌, length,
  Result, ok, err, ◌>>=◌,
}
use cncache_hub.Prelude.Int.{ℤ, pos}
use cncache_hub.Text.{Bytes, is_empty}
use cncache_hub.Cache.Policy.{BypassReason, bypass_none, Policy, should_bypass}
use cncache_hub.Cache.Key.{KeyError, blob_path}
use cncache_hub.Cache.Disk.{Disk, update, remove}
use cncache_hub.Cache.Stream.{
  Writer, CacheError, CloseFaults, WriteOutcome, key_error, mkdir_failed, create_failed,
  stat_failed, open_failed, remove_failed, not_found, read_failed, bypass_error, write, close,
}

pub record FileStore : Type 0 where
  pub root : Bytes
  pub pol : Policy
  pub fsync : Bool

-- SetPolicy: an empty directory stands for the root.
unfoldable pub set_policy : FileStore → Policy → FileStore
set_policy s p = record s {
  pol = if is_empty p.cache_dir then record p { cache_dir = s.root } else p;
}

-- NewFileStore, with os.MkdirAll's answer. `none` is an error.
unfoldable pub new_file_store : Bool → Bytes → Policy → Option FileStore
new_file_store mkdir_fails root pol =
    if is_empty root
    then none
    else if mkdir_fails
    then none
    else some (record { root = root; pol = record pol { cache_dir = root }; fsync = true })

-- BypassCheck
unfoldable pub bypass_check : (Bytes → ℤ) → FileStore → ℤ → BypassReason × Bool
unfolding should_bypass
bypass_check avail s size = should_bypass avail s.pol size

abbrev pub lift_key : Result KeyError Bytes → Result CacheError Bytes
lift_key (ok p) = ok p
lift_key (err e) = err (key_error e)

unfoldable pub path_of : FileStore → Bytes → Bytes → Bytes → Result CacheError Bytes
path_of s registry repo digest = lift_key (blob_path s.root registry repo digest)

-- Stat: whether the blob is there, and its size. `fails` is a failure other than "not there".
unfoldable pub stat : Bool → Disk → FileStore → Bytes → Bytes → Bytes → Result CacheError (Bool × ℕ)
stat fails disk s registry repo digest = do
  target ← path_of s registry repo digest
  if fails
      then err stat_failed
      else elim (disk target) [ none ↦ ok (false, 0) | some c ↦ ok (true, length c) ]

-- Get: the blob and its size. The two flags are failures of os.Open and of Stat on the open file.
unfoldable pub get :
    Bool → Bool → Disk → FileStore → Bytes → Bytes → Bytes → Result CacheError (Bytes × ℕ)
get open_fails stat_fails disk s registry repo digest = do
  target ← path_of s registry repo digest
  if open_fails then err open_failed else elim (disk target) [
    | none ↦ err not_found
    | some c ↦ if stat_fails then err stat_failed else ok (c, length c)
  ]

-- Delete: a blob that is not there is no error.
unfoldable pub delete : Bool → Disk → FileStore → Bytes → Bytes → Bytes → Disk × Option CacheError
delete fails disk s registry repo digest = elim (path_of s registry repo digest) [
  | err e ↦ (disk, some e)
  | ok target ↦ if fails then (disk, some remove_failed) else (remove disk target, none)
]

-- Which of the kernel's calls under OpenStream fail, and the name that os.CreateTemp picks.
pub record OpenFaults : Type 0 where
  pub mkdir_fails : Bool
  pub create_fails : Bool
  pub tmp_name : Bytes

abbrev pub bypass_writer : Policy → BypassReason → Writer
bypass_writer pol reason = record {
  tmp = false;
  tmp_path = [];
  target = [];
  fsync = false;
  max_bytes = pol.max_object_size;
  written = 0;
  closed = false;
  finished = false;
  bypass = true;
  reason = reason;
  failure = none;
}

abbrev pub file_writer : FileStore → Bytes → Bytes → Writer
file_writer s tmp_path target = record {
  tmp = true;
  tmp_path = tmp_path;
  target = target;
  fsync = s.fsync;
  max_bytes = s.pol.max_object_size;
  written = 0;
  closed = false;
  finished = false;
  bypass = false;
  reason = bypass_none;
  failure = none;
}

-- OpenStream
unfoldable pub open_stream :
    (Bytes → ℤ)
    → OpenFaults
    → Disk
    → FileStore
    → Bytes
    → Bytes
    → Bytes
    → ℤ
    → Disk × Result CacheError Writer
open_stream avail f disk s registry repo digest estimated =
    let (reason, bypass) = should_bypass avail s.pol estimated in
    if bypass
    then (disk, ok (bypass_writer s.pol reason))
    else elim (path_of s registry repo digest) [
      | err e ↦ (disk, err e)
      | ok target ↦
          if f.mkdir_fails
          then (disk, err mkdir_failed)
          else if f.create_fails
          then (disk, err create_failed)
          else (update disk f.tmp_name (some []), ok (file_writer s f.tmp_name target))
    ]

-- What io.Copy reads: the chunks, and whether the reader ends with an error.
pub record Source : Type 0 where
  pub chunks : List (WriteOutcome × Bytes)
  pub breaks : Bool

-- io.Copy into the writer: it stops at the first error, of a write or of the reader.
unfoldable pub copy :
    Disk → Writer → List (WriteOutcome × Bytes) → Bool → Disk × Writer × Option CacheError
copy disk w [] breaks = (disk, w, if breaks then some read_failed else none)
copy disk w ((o, p) ∷ ps) breaks =
    let (d, v, n, e) = write o disk w p in
    let rest = copy d v ps breaks in elim e [ some x ↦ (d, v, some x) | none ↦ rest ]

-- What Put answers when the copy and the close are done.
abbrev pub put_answer :
    Writer → Option CacheError → Option CacheError → BypassReason × Option CacheError
put_answer w (some e) closed = (bypass_none, some e)
put_answer w none (some e) = (bypass_none, some e)
put_answer w none none =
    if w.bypass then (w.reason, some (bypass_error w.reason)) else (bypass_none, none)

-- The writer is closed after a failed copy too.
pub put_copied :
    CloseFaults → Disk × Writer × Option CacheError → Disk × BypassReason × Option CacheError
put_copied g (d, w, copy_err) =
    let (d', w', close_err) = close g d w in
    let (reason, e) = put_answer w' copy_err close_err in (d', reason, e)

pub put_opened :
    CloseFaults → Disk × Result CacheError Writer → Source → Disk × BypassReason × Option CacheError
unfolding put_copied copy
put_opened g (d, err e) body = (d, bypass_none, some e)
put_opened g (d, ok w) body = put_copied g (copy d w body.chunks body.breaks)

-- Put
unfoldable pub put :
    (Bytes → ℤ)
    → OpenFaults
    → CloseFaults
    → Disk
    → FileStore
    → Bytes
    → Bytes
    → Bytes
    → ℤ
    → Source
    → Disk × BypassReason × Option CacheError
unfolding put_opened open_stream
put avail f g disk s registry repo digest size body =
    put_opened g (open_stream avail f disk s registry repo digest size) body
