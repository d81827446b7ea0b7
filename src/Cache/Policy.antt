-- ===== src/Cache/Policy.antt =====
-- When an object bypasses the cache: `BypassReason`, `Policy` and `ShouldBypass` of cache.go.
use cncache_hub.Prelude.{Bool, true, false, not, ◌&&◌, if◌then◌else◌}
use cncache_hub.Prelude.Int.{ℤ, pos, lt_ℤ}
use cncache_hub.Text.{Bytes, is_empty}

pub data BypassReason : Type 0 where
  bypass_none size_limit disk_low : BypassReason

-- An int64 limit of 0 means that there is none.
pub record Policy : Type 0 where
  pub max_object_size : ℤ
  pub reserve_space : ℤ
  pub cache_dir : Bytes

-- `availableBytes` asks the kernel; `avail` is its answer, -1 where it has none.
unfoldable pub should_bypass : (Bytes → ℤ) → Policy → ℤ → BypassReason × Bool
should_bypass avail p estimated =
    if lt_ℤ (pos 0) p.max_object_size && lt_ℤ (pos 0) estimated && lt_ℤ p.max_object_size estimated
    then (size_limit, true)
    else if lt_ℤ (pos 0) p.reserve_space && not (is_empty p.cache_dir)
    then (if not (lt_ℤ (avail p.cache_dir) (pos 0)) && lt_ℤ (avail p.cache_dir) p.reserve_space
        then (disk_low, true)
        else (bypass_none, false))
    else (bypass_none, false)
