-- ===== src/Wheel.antt =====
-- The class `TimingWheel` of src/net/TimingWheel.h: wheels of buckets, each a `FixedRingBuffer` of sets
-- of entries, the sets as lists. `none` is a fault in a ring.
pub mod Handed
pub mod Near
pub mod Far
pub mod Early
pub mod Leasing
pub mod Inserting
pub mod Ticking
pub mod Lease
use netyo.Prelude.{
  ℕ, zero, suc, ◌+◌, ◌-◌, ◌*◌, ◌/◌, ◌%◌, ◌^◌, Option, none, some, List, [], ◌∷◌, ◌++◌,
  if◌then◌else◌, ◌==◌, leb, ltb, ◌>>=◌, get_or, get_elem?, overwrite, replicate,
}
use netyo.Prelude.Int.{pos}
use netyo.Ring.{Ring, vsize, full, mod_index, read_at, write_at, with_count}
use netyo.FixedRing.{push_back}

-- An entry: one that a caller has inserted, or a `CallBackEntry`, which at its end puts an entry into a
-- bucket of a wheel.
pub data Entry : Type 0 where
  plain : ℕ → Entry
  put_back : ℕ → ℕ → Entry → Entry

abbrev pub Bucket : Type 0
Bucket = List Entry

abbrev pub Wheels : Type 0
Wheels = List (Ring Bucket)

abbrev pub bucket_size : ℕ
bucket_size = 100

pub record TimingWheel : Type 0 where
  pub wheels : Wheels
  pub curtick : ℕ
  pub tick_interval : ℕ
  pub nwheel : ℕ

-- The loop that counts the wheels, on fuel, which is a power to which 100 exceeds the number of ticks.
unfoldable pub count_wheels : ℕ → ℕ → ℕ → ℕ → ℕ
count_wheels zero num_tick cur_num_tick nwheel = nwheel
count_wheels (suc fuel) num_tick cur_num_tick nwheel =
    let more = count_wheels fuel num_tick (cur_num_tick * bucket_size) (nwheel + 1) in
    if leb cur_num_tick num_tick then more else nwheel

-- `TimingWheel(loop, max_time, tick_interval)`; 5 rounds are enough for fewer than
-- 10^8 ticks, beyond which the source's `int` overflows.
unfoldable pub new_wheel : ℕ → ℕ → TimingWheel
unfolding count_wheels with_count
new_wheel max_time tick_interval =
    let nwheel = count_wheels 5 (max_time / tick_interval + 1) bucket_size 1 in
    record {
      wheels = replicate nwheel (with_count bucket_size []);
      curtick = 0;
      tick_interval = tick_interval;
      nwheel = nwheel;
    }

-- `wheels[i][p].insert(e)`
unfoldable pub insert_slot : ℕ → ℕ → Entry → Wheels → Option Wheels
unfolding mod_index read_at write_at
insert_slot i p e ws = do
  r ← get_elem? ws i
  let at = mod_index (vsize r) (pos (r.lo + p))
  bucket ← read_at r.vec at []
  vec ← write_at r.vec at ((e ∷ bucket) ∷ [])
  some (overwrite ws i (record r { vec = vec } ∷ []))

-- The end of the entries of a bucket that is dropped: those of callers are given up, the others put
-- back what they hold.
unfoldable pub release : Bucket → Wheels → Option Wheels
release [] ws = some ws
release (plain n ∷ es) ws = release es ws
release (put_back i p e ∷ es) ws = insert_slot i p e ws >>= release es

-- The buckets that a `push_back` overwrites.
abbrev pub dropped : Ring Bucket → Bucket
dropped r = (if full r then get_or r.vec r.lo [] else []) ++ get_or r.vec r.hi []

-- The loop of a tick over the wheels `i` to `i + n - 1`.
unfoldable pub tick_from : ℕ → ℕ → ℕ → ℕ → Wheels → Option Wheels
unfolding full release
tick_from zero i base t ws = some ws
tick_from (suc n) i base t ws = do
  let pushed = (do
    r ← get_elem? ws i
    r' ← push_back [] r []
    release (dropped r) (overwrite ws i (r' ∷ [])))
  ws' ← if t % base == 0 then pushed else some ws
  tick_from n (i + 1) (base * bucket_size) t ws'

-- What the loop calls every `tick_interval`.
unfoldable pub tick : TimingWheel → Option TimingWheel
unfolding tick_from
tick w = do
  let t = w.curtick + 1
  ws ← tick_from w.nwheel 0 1 t w.wheels
  some (record w { wheels = ws; curtick = t })

-- `delay -= pos * base`, of a `size_t`.
unfoldable pub next_delay : ℕ → ℕ → ℕ
next_delay delay base = (delay + (2 ^ 64 - ((delay - 1) % bucket_size * base) % 2 ^ 64)) % 2 ^ 64

-- The loop of `insert_in_loop` over the wheels `i` to `i + n - 1`.
unfoldable pub insert_from : ℕ → ℕ → ℕ → ℕ → Entry → Wheels → Option Wheels
insert_from zero i base delay e ws = some ws
insert_from (suc n) i base delay e ws =
    let p = (delay - 1) % bucket_size in
    let further =
      insert_from n (i + 1) (base * bucket_size) (next_delay delay base) (put_back i p e) ws in
    if delay == 0
    then some ws
    else if leb delay bucket_size
    then insert_slot i (delay - 1) e ws
    else if ltb 0 n
    then further
    else insert_slot i (bucket_size - 1) e ws

-- `insert_in_loop(delay, spentry)`
unfoldable pub insert_in_loop : ℕ → Entry → TimingWheel → Option TimingWheel
unfolding insert_from
insert_in_loop delay e w =
    insert_from w.nwheel 0 1 delay e w.wheels >>= λ ws. some (record w { wheels = ws })
