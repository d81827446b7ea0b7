-- ===== src/Cache/Disk.antt =====
-- The file system that cache.go works on, as far as it looks: the contents of the files by path.
-- Directories are not kept; what a call of the kernel answers comes in as an argument.
use cncache_hub.Prelude.{◌≡◌, Option, none, some, ◌++◌, arith, if◌then◌else◌}
use cncache_hub.Text.{Bytes, same}

abbrev pub Disk : Type 0
Disk = Bytes → Option Bytes

unfoldable pub update : Disk → Bytes → Option Bytes → Disk
update disk path contents q = if same path q then contents else disk q

-- A write to a file that was unlinked is seen by nobody.
unfoldable pub append_file : Disk → Bytes → Bytes → Disk
unfolding update
append_file disk path p = elim (disk path) [
  | none ↦ disk
  | some c ↦ update disk path (some (c ++ p))
]

-- os.Remove
unfoldable pub remove : Disk → Bytes → Disk
unfolding update
remove disk path = update disk path none

-- os.Rename of a file that is there; the target is replaced.
unfoldable pub rename : Disk → Bytes → Bytes → Bytes → Disk
unfolding update
rename disk from to contents = update (update disk from none) to (some contents)

pub update_lem :
    (disk : Disk) (path q : Bytes) (o : Option Bytes)
    → update disk path o q ≡ (if same path q then o else disk q)
unfolding update
update_lem disk path q o = ground arith
