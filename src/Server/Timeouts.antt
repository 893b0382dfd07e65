-- ===== src/Server/Timeouts.antt =====
-- The timeouts of the connections of `TcpServer` (src/net/Server.h). A `TimeOutEntry` is a number, and
-- its `shared_ptr`s lie in the timing wheel; it ends when the wheel has dropped the last of them. What a
-- connection is told by `force_close` is the matter of Transport: here the entries that call it are
-- written down. `none` is a fault in the wheel.
use netyo.Prelude.{
  ℕ, ◌+◌, ◌==◌, Bool, true, false, not, ◌&&◌, Option, none, some, ◌>>=◌, List, [], ◌∷◌, ◌++◌,
  if◌then◌else◌, zero, suc,
}
use netyo.Wheel.{plain, TimingWheel, tick, insert_in_loop}
use netyo.Wheel.Lease.{alive}

-- `connections`, by the number of the connection, with the entry that its `weak_ptr` was set to, and how
-- many have been put into it;
-- the connection of each `TimeOutEntry` that has been made; the entries whose end has called
-- `force_close`.
pub record Timeouts : Type 0 where
  pub connections : ℕ → Option (Option ℕ)
  pub num_connections : ℕ
  pub entry_conn : ℕ → ℕ
  pub num_entries : ℕ
  pub timing_wheel : TimingWheel
  pub force_closed : List ℕ

abbrev pub is_some : Option (Option ℕ) → Bool
is_some none = false
is_some (some w) = true

-- `lock()`
abbrev pub lock : Option ℕ → Timeouts → Option ℕ
lock none s = none
lock (some e) s = if alive e s.timing_wheel.wheels then some e else none

-- The numbers below `n` at which a test holds.
unfoldable pub ended : ℕ → (ℕ → Bool) → List ℕ
ended zero p = []
ended (suc n) p = let rest = ended n p in if p n then n ∷ rest else rest

-- The wheel has changed, and the entries that it has dropped end: `~TimeOutEntry()`, which does
-- nothing if the connection is not there any more.
unfoldable pub lapse : TimingWheel → Timeouts → Timeouts
unfolding ended
lapse w s = record s {
  timing_wheel = w;
  force_closed =
      s.force_closed
      ++ ended s.num_entries (λ e.
        alive e s.timing_wheel.wheels
        && not (alive e w.wheels)
        && is_some (s.connections (s.entry_conn e)));
}

-- What the timer of the wheel does.
unfoldable pub tick_connections : Timeouts → Option Timeouts
unfolding lapse
tick_connections s = tick s.timing_wheel >>= λ w. some (lapse w s)

-- A new entry for a connection. If the wheel does not take it, it ends at once.
unfoldable pub start_timeout : ℕ → ℕ → Timeouts → Option Timeouts
start_timeout c timeout s = do
  let e = s.num_entries
  w ← insert_in_loop timeout (plain e) s.timing_wheel
  some (record s {
    connections = λ k. if k == c then some (some e) else s.connections k;
    entry_conn = λ k. if k == e then c else s.entry_conn k;
    num_entries = e + 1;
    timing_wheel = w;
    force_closed = if alive e w.wheels then s.force_closed else s.force_closed ++ e ∷ [];
  })

-- What `reset_timeout_cb` hands to the server's loop.
unfoldable pub reset_timeout_in_loop : ℕ → ℕ → Timeouts → Option Timeouts
unfolding start_timeout
reset_timeout_in_loop c timeout s = elim (s.connections c) [
  | none ↦ some s
  | some w ↦ elim (lock w s) [
    | none ↦ start_timeout c timeout s
    | some e ↦ insert_in_loop timeout (plain e) s.timing_wheel >>= λ v.
        some (record s { timing_wheel = v })
  ]
]

-- A new connection is put into the table, with a null `weak_ptr`.
unfoldable pub emplace_connection : Timeouts → Timeouts
emplace_connection s =
    let c = s.num_connections in
    record s {
      connections = λ k. if k == c then some none else s.connections k;
      num_connections = c + 1;
    }

-- What `connection_lost_cb` has done two seconds later.
unfoldable pub erase_connection : ℕ → Timeouts → Timeouts
erase_connection c s = record s { connections = λ k. if k == c then none else s.connections k }
