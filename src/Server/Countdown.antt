-- ===== src/Server/Countdown.antt =====
-- The timeouts of the connections of src/net/Server.h as countdowns, of any number of connections.
pub mod Ticks
pub mod Resets
pub mod Runs
pub mod Start
use netyo.Prelude.{
  ℕ, zero, suc, ◌+◌, ◌-◌, ◌*◌, ◌≤◌, ◌<◌, ◌≡◌, ◌∙◌, sym, ap, List, [], ◌∷◌, ◌++◌, ◌++◌, arith,
  length, get_or, if◌then◌else◌, leb, ltb, ◌==◌, overwrite, get_or-overwrite, length-overwrite,
  length-append, get_or-append, length-replicate, get_or-replicate, get_or-eq_default, replicate,
  take, drop, length-take, length-drop, get_or-take, get_or-drop, append_assoc, dec_lt, ℕ_discrete,
  Option-cases, take-take, take-nil, drop-nil, take-append-take, take-all, drop-all, get_or-cons,
  append-nil, ◌⊎◌, list_ext, some, none, ◌>>=◌, Option, true, false, refl, Bool-cases, inl, inr,
  min, subst, ◌/◌, ◌≢◌, ◌&&◌, Bool,
}
use netyo.Prelude.{not}
use netyo.Ring.{Ring, vsize}
use netyo.Wheel.{Bucket, bucket_size}
use netyo.Wheel.Lease.{remaining, alive}
use netyo.Wheel.Leasing.{first, alive-remaining, tick-IsRunning}
use netyo.Server.Timeouts.{
  Timeouts, is_some, ended, lapse, tick_connections, reset_timeout_in_loop, erase_connection,
  emplace_connection,
}
use netyo.Server.Tally.{
  count, count-append, count-ended, count_for, count_for-append, count_for-agrees, count_for-ended,
}
use netyo.Server.Renewal.{IsWatched, IsRenewed, lease, reset_timeout-IsRenewed}

-- What happens in the server's loop: a connection is made, a tick of the wheel, a reset of the timeout of
-- a connection to a number of ticks, and its removal.
pub data Event : Type 0 where
  emplace : Event
  tick : Event
  reset : ℕ → ℕ → Event
  erase : ℕ → Event

unfoldable pub serve : Event → Timeouts → Option Timeouts
serve emplace s = some (emplace_connection s)
serve tick s = tick_connections s
serve (reset c d) s = reset_timeout_in_loop c d s
serve (erase c) s = some (erase_connection c s)

unfoldable pub serve_all : List Event → Timeouts → Option Timeouts
unfolding serve
serve_all [] s = some s
serve_all (x ∷ xs) s = serve x s >>= serve_all xs

-- The specification: each connection that is known has a number of ticks left, and is closed when the
-- last of them is over.
pub record Countdown : Type 0 where
  pub known : ℕ → Bool
  pub left : ℕ → ℕ
  pub closed : ℕ → ℕ
  pub made : ℕ

unfoldable pub count_down : Event → Countdown → Countdown
count_down emplace a = record a {
  known = λ k. if k == a.made then true else a.known k;
  left = λ k. if k == a.made then 0 else a.left k;
  made = a.made + 1;
}
count_down tick a = record a {
  left = λ c. a.left c - 1;
  closed = λ c. a.closed c + (if a.left c == 1 then 1 else 0);
}
count_down (reset c d) a = record a {
  left = λ k. if a.known c && (k == c) && ltb (a.left c) d then d else a.left k;
}
count_down (erase c) a = record a {
  known = λ k. if k == c then false else a.known k;
  left = λ k. if k == c then 0 else a.left k;
}

unfoldable pub count_down_all : List Event → Countdown → Countdown
unfolding count_down
count_down_all [] a = a
count_down_all (x ∷ xs) a = count_down_all xs (count_down x a)

-- The timeouts are from 1 to 99 ticks.
abbrev pub IsShort : Event → Type 0
IsShort emplace = Unit
IsShort tick = Unit
IsShort (reset c d) = (1 ≤ d) × (d < bucket_size)
IsShort (erase c) = Unit

abbrev pub AllShort : List Event → Type 0
AllShort [] = Unit
AllShort (x ∷ xs) = IsShort x × AllShort xs

-- The ticks that are left to a connection, as the table has it.
abbrev pub left_to : Option (Option ℕ) → Ring Bucket → ℕ
left_to none r = 0
left_to (some none) r = 0
left_to (some (some e)) r = remaining e r

-- The server does as the countdowns say. No connection has two entries with ticks left.
pub record Follows (s : Timeouts) (a : Countdown) : Type 0 where
  pub watched : IsWatched s
  pub known : (c : ℕ) → is_some (s.connections c) ≡ a.known c
  pub left : (c : ℕ) → left_to (s.connections c) (first s.timing_wheel) ≡ a.left c
  pub closed : (c : ℕ) → count_for s.entry_conn c s.force_closed ≡ a.closed c
  pub only :
      (e : ℕ)
      → e < s.num_entries
      → is_some (s.connections (s.entry_conn e)) ≡ true
      → 0 < remaining e (first s.timing_wheel)
      → s.connections (s.entry_conn e) ≡ some (some e)
  pub unmade : (e : ℕ) → s.num_entries ≤ e → count e s.force_closed ≡ 0
  pub made : s.num_connections ≡ a.made
  pub numbered : (c : ℕ) → s.num_connections ≤ c → s.connections c ≡ none
  pub owned : (e : ℕ) → e < s.num_entries → s.entry_conn e < s.num_connections

-- The entries that end in a step are written down after the others, which stay those of the same
-- connections.
pub record Adds (s s' : Timeouts) (a : Countdown) : Type 0 where
  pub new : List ℕ
  pub grown : s'.force_closed ≡ s.force_closed ++ new
  pub before : (c : ℕ) → count_for s'.entry_conn c s.force_closed ≡ a.closed c

pub erase-Follows :
    (c : ℕ) (s : Timeouts) (a : Countdown)
    → Follows s a
    → Follows (erase_connection c s) (count_down (erase c) a)
unfolding erase_connection count_down
erase-Follows c s a h = record {
  watched = record {
    running = h.watched.running;
    wide = h.watched.wide;
    linked = λ k e q. elim (ℕ_discrete k c) [
      | yes z ↦ absurd (ground (arith, z, q))
      | no z ↦ h.watched.linked k e (ground (arith, z, q))
    ];
  };
  known = λ k. elim (ℕ_discrete k c) [
    | yes z ↦ ground (arith, z)
    | no z ↦ ground (arith, z, h.known k)
  ];
  left =
      λ k. elim (ℕ_discrete k c) [ yes z ↦ ground (arith, z) | no z ↦ ground (arith, z, h.left k) ];
  closed = h.closed;
  only = λ e u q p. elim (ℕ_discrete (s.entry_conn e) c) [
    | yes z ↦ absurd (ground (arith, z, q))
    | no z ↦ ground (arith, z, h.only e u (ground (arith, z, q)) p)
  ];
  unmade = h.unmade;
  made = h.made;
  numbered = λ k u. elim (ℕ_discrete k c) [
    | yes z ↦ ground (arith, z)
    | no z ↦ ground (arith, z, h.numbered k u)
  ];
  owned = h.owned;
}

pub emplace-Follows :
    (s : Timeouts) (a : Countdown)
    → Follows s a
    → Follows (emplace_connection s) (count_down emplace a)
unfolding emplace_connection count_down
emplace-Follows s a h = record {
  watched = record {
    running = h.watched.running;
    wide = h.watched.wide;
    linked = λ k e q. elim (ℕ_discrete k s.num_connections) [
      | yes z ↦ absurd (ground (arith, z, q))
      | no z ↦ h.watched.linked k e (ground (arith, z, q))
    ];
  };
  known = λ k. elim (ℕ_discrete k s.num_connections) [
    | yes z ↦ ground (arith, z, h.made)
    | no z ↦ ground (arith, z, h.made, h.known k)
  ];
  left = λ k. elim (ℕ_discrete k s.num_connections) [
    | yes z ↦ ground (arith, z, h.made)
    | no z ↦ ground (arith, z, h.made, h.left k)
  ];
  closed = h.closed;
  only = λ e u q p.
      let old : s.entry_conn e ≢ s.num_connections = λ z. omega (arith, z, h.owned e u) in
      ground (arith, old, h.only e u (ground (arith, old, q)) p);
  unmade = h.unmade;
  made = omega (arith, h.made);
  numbered = λ k u.
      let new : k ≢ s.num_connections = λ z. omega (arith, z, u) in
      ground (arith, new, h.numbered k (omega (arith, u)));
  owned = λ e u. omega (arith, h.owned e u);
}
