-- ===== src/Ratelimit/Limiter.antt =====
-- ratelimit/limiter.go. Time is in nanoseconds. Tokens are counted in parts, exactly where the
-- code has a float64: `unit` parts make a token and a bucket gains `rate` parts in a nanosecond,
-- so a refill of r tokens a second is rate * 10^9 = r * unit.
pub mod Buckets
pub mod Pool
use cncache_hub.Prelude.{
  ℕ, zero, suc, ◌+◌, ◌-◌, ◌*◌, ◌/◌, Bool, true, false, Option, none, some, List, [], ◌∷◌,
  if◌then◌else◌, length, ltb, leb, is_some,
}
use cncache_hub.Text.{Bytes, same}

pub record Bucket : Type 0 where
  pub tokens : ℕ
  pub last_refil : ℕ
  pub capacity : ℕ
  pub unit : ℕ
  pub rate : ℕ

abbrev pub millisecond : ℕ
millisecond = 1000000

-- The refill since the last one, up to the capacity; a clock that went back adds nothing.
unfoldable pub refill : ℕ → Bucket → Bucket
refill now b =
    let more = b.tokens + (now - b.last_refil) * b.rate in
    if ltb b.last_refil now
    then record b { tokens = if ltb b.capacity more then b.capacity else more; last_refil = now }
    else b

-- take, after the refill: whether a token was there, and how long to wait where none was.
unfoldable pub spend : Bucket → Bucket × Bool × ℕ
spend b =
    if leb b.unit b.tokens
    then (record b { tokens = b.tokens - b.unit }, true, 0)
    else (b, false, (b.unit - b.tokens) / b.rate + millisecond)

-- take
unfoldable pub take : ℕ → Bucket → Bucket × Bool × ℕ
unfolding refill spend
take now b = spend (refill now b)

pub record Limiter : Type 0 where
  pub buckets : List (Bytes × Bucket)
  pub capacity : ℕ
  pub unit : ℕ
  pub rate : ℕ
  pub idle : ℕ
  pub gc_every : ℕ
  pub last_gc : ℕ

-- NewLimiterWithGC
unfoldable pub new_limiter_with_gc : ℕ → ℕ → ℕ → ℕ → ℕ → ℕ → Limiter
new_limiter_with_gc now capacity unit rate idle gc_every = record {
  buckets = [];
  capacity = capacity;
  unit = unit;
  rate = rate;
  idle = idle;
  gc_every = gc_every;
  last_gc = now;
}

-- NewLimiter: a garbage collection every five minutes.
unfoldable pub new_limiter : ℕ → ℕ → ℕ → ℕ → ℕ → Limiter
unfolding new_limiter_with_gc
new_limiter now capacity unit rate idle =
    new_limiter_with_gc now capacity unit rate idle (5 * 60 * 1000 * millisecond)

-- l.buckets[key]
unfoldable pub find_bucket : Bytes → List (Bytes × Bucket) → Option Bucket
find_bucket key [] = none
find_bucket key ((k, b) ∷ rest) = if same key k then some b else find_bucket key rest

-- l.buckets[key] = b, and what a change through the pointer does to the entry: nothing when the
-- map no longer has the key.
unfoldable pub replace_bucket : Bytes → Bucket → List (Bytes × Bucket) → List (Bytes × Bucket)
replace_bucket key b [] = []
replace_bucket key b ((k, c) ∷ rest) =
    if same key k then (k, b) ∷ rest else (k, c) ∷ replace_bucket key b rest

-- gcLocked
unfoldable pub gc_locked : ℕ → ℕ → List (Bytes × Bucket) → List (Bytes × Bucket)
gc_locked idle now [] = []
gc_locked idle now ((k, b) ∷ rest) =
    if ltb (b.last_refil + idle) now
    then gc_locked idle now rest
    else (k, b) ∷ gc_locked idle now rest

-- A new bucket is full.
unfoldable pub full_bucket : Limiter → ℕ → Bucket
full_bucket l now = record {
  tokens = l.capacity;
  last_refil = now;
  capacity = l.capacity;
  unit = l.unit;
  rate = l.rate;
}

abbrev pub found_bucket : Limiter → ℕ → Bytes → Option Bucket → Bucket × List (Bytes × Bucket)
found_bucket l now key (some b) = (b, l.buckets)
found_bucket l now key none = (full_bucket l now, (key, full_bucket l now) ∷ l.buckets)

-- The bucket of the key, made where there is none, and the map that has it.
unfoldable pub bucket_for : Limiter → ℕ → Bytes → Bucket × List (Bytes × Bucket)
unfolding find_bucket full_bucket
bucket_for l now key = found_bucket l now key (find_bucket key l.buckets)

-- Take's own garbage collection, when its time has come.
unfoldable pub collect : Limiter → ℕ → List (Bytes × Bucket) → Limiter
unfolding gc_locked
collect l now buckets =
    if ltb (l.last_gc + l.gc_every) now
    then record l { buckets = gc_locked l.idle now buckets; last_gc = now }
    else record l { buckets = buckets }

-- Take: the bucket is looked up before the collection and taken from after it.
unfoldable pub take_key : ℕ → Bytes → Limiter → Limiter × Bool × ℕ
unfolding bucket_for collect take replace_bucket
take_key now key l =
    let (b, buckets) = bucket_for l now key in
    let l' = collect l now buckets in
    let (b', allowed, wait) = take now b in
    (record l' { buckets = replace_bucket key b' l'.buckets }, allowed, wait)

-- Stats
unfoldable pub stats : Limiter → ℕ
stats l = length l.buckets
