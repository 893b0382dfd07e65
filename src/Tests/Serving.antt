-- ===== src/Tests/Serving.antt =====
-- The timeouts of src/net/Server.h with connections, at small inputs.
use netyo.Prelude.{
  false, ◌<◌, ℕ, ◌≡◌, List, [], ◌∷◌, arith, true, refl, some, ◌==◌, ◌⊎◌, ℕ_discrete, none, ◌≢◌,
  if◌then◌else◌, ◌>>=◌, ◌++◌, map,
}
use netyo.Transport.{closed, Conn, Protocol}
use netyo.Server.Timeouts.{Timeouts, erase_connection}
use netyo.Server.Wiring.{
  Servers, ClientProtocol, run_reset, run_lost, reset_in, install_all, erase_all,
  install_all-shared,
}
use netyo.Server.Tally.{count}
use netyo.Server.Countdown.{
  Event, emplace, tick, reset, erase, serve_all, Countdown, count_down_all, Follows,
}
use netyo.Server.Countdown.Start.{new_timeouts, no_countdown, first_ticks}
use netyo.Server.Countdown.Runs.{serve_all-started}
use netyo.Server.Expel.{Turn, event, gives_up, Serving, serve_turns}
use netyo.Server.Expel.Once.{IsFinal, Keeps, count_turns, gone_after_all, serve_turns-started}
use netyo.Server.Teardown.{destroy_server}
use netyo.Server.Teardown.Outcome.{destroy_server-outcome}
use netyo.Tests.World.{line_socket, one_epoll}
use netyo.Tests.Servers.{one_connection, one_connection-IsWatched}
use netyo.Tests.Transports.{busy, silent}

-- A first connection, a reset of it to two ticks, a tick, another connection, its removal, and two ticks.
abbrev six_events : List Event
six_events = emplace ∷ reset 0 2 ∷ tick ∷ emplace ∷ erase 1 ∷ tick ∷ tick ∷ []

abbrev one_countdown : Countdown
one_countdown = record { known = λ k. k == 7; left = λ k. 0; closed = λ k. 0; made = 8 }

one_connection-Follows : Follows one_connection one_countdown
unfolding netyo.Server.Tally.count_for count
one_connection-Follows = record {
  watched = one_connection-IsWatched;
  known = λ c. ground arith;
  left = λ c. elim (ℕ_discrete c 7) [ yes z ↦ ground (arith, z) | no z ↦ ground (arith, z) ];
  closed = λ c. refl;
  only = λ e u q p. absurd (omega (arith, u));
  unmade = λ e u. refl;
  made = refl;
  numbered = λ c u. ground (arith, u);
  owned = λ e u. absurd (omega (arith, u));
}

serve_all-started_example :
    (s : Timeouts) × (serve_all (first_ticks ++ six_events) new_timeouts ≡ some s)
    × Follows s (count_down_all six_events no_countdown)
serve_all-started_example = serve_all-started six_events (omega arith)

-- Connection 0 is closed once by them.
six_events-closed : (count_down_all six_events no_countdown).closed 0 ≡ 1
unfolding count_down_all
six_events-closed = refl

abbrev one_serving : Serving one_epoll line_socket
one_serving = record { timeouts = one_connection; conns = λ k. busy }

silent-IsFinal : IsFinal one_epoll line_socket silent
silent-IsFinal t h = (t, refl, h, refl)

-- A connection that times out, and another that its peer closes.
abbrev six_turns : List Turn
six_turns =
    event emplace ∷ event (reset 0 2) ∷ gives_up 3 ∷ event tick ∷ event tick ∷ event tick ∷ []

serve_turns-started_example :
    (v : Serving one_epoll line_socket) × (serve_turns one_epoll line_socket silent
        (map event first_ticks ++ six_turns)
        (record { timeouts = new_timeouts; conns = λ k. busy })
      ≡ some v)
    × Keeps one_epoll line_socket
        (gone_after_all six_turns (λ k. closed one_epoll line_socket busy))
        v
        (count_turns six_turns no_countdown)
    × ((k : ℕ) → (closed one_epoll line_socket (v.conns k) ≡ true) ⊎ (v.conns k ≡ busy))
serve_turns-started_example =
    serve_turns-started one_epoll line_socket silent silent-IsFinal six_turns (λ k. busy)
      (λ k. refl) (omega arith)

-- Two servers with the default protocol: connection 7 is one of server 1 only.
abbrev two_servers : Servers
two_servers k = if k == 1 then one_connection else erase_connection 7 one_connection

abbrev default_protocol : ClientProtocol
default_protocol = record { reset_timeout_cb = none; connection_lost_cb = none }

install_all-shared_example :
    let q = install_all (0 ∷ 1 ∷ []) default_protocol in
    (run_reset q 7 5 two_servers ≡ reset_in 0 7 5 two_servers)
    × (((two_servers 0).connections 7 ≢ none) ⊎ (run_reset q 7 5 two_servers ≡ some two_servers))
    × (run_lost q 7 two_servers
        ≡ (run_lost default_protocol 7 two_servers >>= erase_all (0 ∷ 1 ∷ []) 7))
install_all-shared_example = install_all-shared 0 (1 ∷ []) default_protocol 7 5 two_servers refl

-- A `connection_lost_cb` that does nothing.
abbrev losing : Protocol one_epoll line_socket
losing = record silent { connection_lost_cb = some (λ t. some t) }

losing-IsFinal : IsFinal one_epoll line_socket losing
losing-IsFinal t h = (t, refl, h, refl)

destroy_server-outcome_example :
    ((after : ℕ → Conn one_epoll line_socket) × (destroy_server one_epoll line_socket losing
          one_serving
        ≡ some after)
      × ((k : ℕ)
          → (one_countdown.known k ≡ false)
            ⊎ ((closed one_epoll line_socket (after k) ≡ true)
                × ((0 < one_countdown.left k) ⊎ (closed one_epoll line_socket busy ≡ true)))))
    ⊎ ((k : ℕ) × (one_countdown.known k ≡ true)
        × (one_countdown.left k ≡ 0)
        × (closed one_epoll line_socket busy ≡ false)
        × (destroy_server one_epoll line_socket losing one_serving ≡ none))
destroy_server-outcome_example =
    destroy_server-outcome one_epoll line_socket losing (λ t. some t) one_serving one_countdown refl
      losing-IsFinal one_connection-Follows (λ k. refl)
