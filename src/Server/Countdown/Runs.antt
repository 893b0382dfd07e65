-- ===== src/Server/Countdown/Runs.antt =====
-- New connections, ticks, resets and removals in the server of src/net/Server.h, one after the other.
use netyo.Prelude.{◌++◌, ◌∙◌, ◌≡◌, List, [], ◌∷◌, some, refl, sym, append-nil}
use netyo.Server.Timeouts.{Timeouts, erase_connection, emplace_connection}
use netyo.Server.Countdown.{
  Event, emplace, tick, reset, erase, serve, serve_all, Countdown, count_down, count_down_all,
  IsShort, AllShort, Follows, Adds, erase-Follows, emplace-Follows,
}
use netyo.Server.Countdown.Start.{
  new_timeouts, ready_timeouts, no_countdown, first_ticks, serve_all-first_ticks,
}
use netyo.Server.Countdown.Ticks.{tick-Follows}
use netyo.Server.Countdown.Resets.{reset-Follows}

pub serve-Follows :
    (x : Event) (s : Timeouts) (a : Countdown)
    → Follows s a
    → IsShort x
    → (s' : Timeouts) × (serve x s ≡ some s') × Follows s' (count_down x a) × Adds s s' a
unfolding serve emplace_connection erase_connection
serve-Follows emplace s a h short = (
  emplace_connection s,
  refl,
  emplace-Follows s a h,
  record { new = []; grown = sym (append-nil s.force_closed); before = h.closed },
)
serve-Follows tick s a h short = tick-Follows s a h
serve-Follows (reset c d) s a h short = reset-Follows c d s a h short.0 short.1
serve-Follows (erase c) s a h short = (
  erase_connection c s,
  refl,
  erase-Follows c s a h,
  record { new = []; grown = sym (append-nil s.force_closed); before = h.closed },
)

-- Any events, of a server that follows the countdowns.
serve_all-Follows :
    (xs : List Event) (s : Timeouts) (a : Countdown)
    → Follows s a
    → AllShort xs
    → (s' : Timeouts) × (serve_all xs s ≡ some s') × Follows s' (count_down_all xs a)
unfolding serve_all count_down_all
serve_all-Follows [] s a h short = (s, refl, h)
serve_all-Follows (x ∷ xs) s a h short =
    let (u, e, g, _) = serve-Follows x s a h short.0 in
    let (s', f, k) = serve_all-Follows xs u (count_down x a) g short.1 in (s', rw e f, k)

-- In a new server that nothing happens to in its first 99 ticks, and from then on in any order of new
-- connections, of ticks, of resets of timeouts from 1 to 99 ticks, and of removals, nothing faults and
-- the server keeps to the countdowns: a new connection has no timeout, a tick takes one from what is left
-- to each connection, a reset leaves a known connection as many ticks as it asks for, or more, and a
-- connection is closed, once, when its last tick is over, unless it has been removed.
pub serve_all-started :
    (xs : List Event)
    → AllShort xs
    → (s : Timeouts) × (serve_all (first_ticks ++ xs) new_timeouts ≡ some s)
      × Follows s (count_down_all xs no_countdown)
serve_all-started xs short =
    let (e, h) = serve_all-first_ticks xs in
    let (s, f, k) = serve_all-Follows xs ready_timeouts no_countdown h short in (s, e ∙ f, k)
