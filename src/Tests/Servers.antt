-- ===== src/Tests/Servers.antt =====
-- The selector and the acceptor's callback, of src/net/eventloop/selectors and src/net/Server.h, at
-- small inputs.
use netyo.Prelude.{
  ◌+◌, zero, suc, ℕ, ◌≤◌, ◌≡◌, ap, List, [], ◌∷◌, arith, length, take, length-take, some, none,
  Option, refl,
}
use netyo.Prelude.Int.{ℤ, pos, negsuc}
use netyo.Epoll.{Events, none_set}
use netyo.Epoll.Select.{Ready, events_list_size, selects, Handles, selects-Handles}
use netyo.Pool.{start_thread}
use netyo.Server.{TcpServer, accept_loop}
use netyo.Prelude.{get_or-replicate, replicate, ◌==◌, if◌then◌else◌}
use netyo.Ring.{Ring}
use netyo.Wheel.{Bucket}
use netyo.Wheel.Ticking.{IsBlank, IsFull}
use netyo.Server.Timeouts.{Timeouts}
use netyo.Server.Renewal.{IsWatched}
use netyo.Server.Accepting.{AllLoops, Gives, accepted, accept_loop-accepted}

-- Two events, one of them with a null pointer, as often as `epoll_wait` is called.
abbrev two_events : List Ready
two_events = (some 3, none_set) ∷ (none, none_set) ∷ []

unfoldable note_handled : ℕ → Events → List ℕ → List ℕ
note_handled pdata ev k = pdata ∷ k

unfoldable always_two : ℕ → List ℕ → List ℕ × Option (List Ready)
always_two room k = (k, some (take room two_events))

length_or : Option (List Ready) → ℕ
length_or none = 0
length_or (some es) = length es

always_two-at_most :
    (room : ℕ) (k : List ℕ) (es : List Ready) → (always_two room k).1 ≡ some es → length es ≤ room
unfolding always_two length_or
always_two-at_most room k es e =
    let same : length (take room two_events) ≡ length es = ap length_or e in
    omega (arith, same, length-take room two_events)

selects-Handles_example :
    (room : ℕ) × (k : List ℕ) × (selects note_handled always_two 3 events_list_size []
      ≡ some (room, k))
    × (1 ≤ room)
    × Handles note_handled always_two room k
selects-Handles_example =
    selects-Handles note_handled always_two always_two-at_most 3 events_list_size [] (omega arith)

-- A listening socket is the descriptors of the connections that wait.
unfoldable accept_next : List ℕ → List ℕ × ℤ
accept_next [] = ([], negsuc 0)
accept_next (fd ∷ fds) = (fds, pos fd)

abbrev two_waiting : TcpServer (List ℕ)
two_waiting = record {
  socket = 5 ∷ 6 ∷ [];
  pool = record {
    thread_num = 3;
    threads = start_thread 20 ∷ start_thread 21 ∷ start_thread 22 ∷ [];
    thread_index = 0;
  };
  connections = [];
  activated = [];
}

two_waiting-Gives : Gives accept_next (5 ∷ 6 ∷ []) (5 ∷ 6 ∷ []) []
unfolding Gives accept_next
two_waiting-Gives = (4, 6 ∷ [], refl, refl, (5, [], refl, refl, (0, refl)))

two_waiting-AllLoops : AllLoops accept_next (λ i. 20 + i) two_waiting.pool
unfolding start_thread
two_waiting-AllLoops zero h = refl
two_waiting-AllLoops (suc zero) h = refl
two_waiting-AllLoops (suc (suc i)) h = absurd (omega (arith, h))

accept_loop-accepted_example :
    accept_loop accept_next 3 two_waiting
    ≡ some (accepted accept_next (λ i. 20 + i) two_waiting 0 (5 ∷ 6 ∷ []) [])
accept_loop-accepted_example =
    accept_loop-accepted accept_next (λ i. 20 + i) (5 ∷ 6 ∷ []) two_waiting 0 [] (omega arith) refl
      two_waiting-AllLoops two_waiting-Gives

-- The first wheel has gone round, and neither holds anything; connection 7 is new.
abbrev round_wheel : Ring Bucket
round_wheel = record { vec = replicate 100 []; lo = 0; hi = 99 }

abbrev fresh_wheel : Ring Bucket
fresh_wheel = record { vec = replicate 100 []; lo = 0; hi = 0 }

abbrev pub one_connection : Timeouts
one_connection = record {
  connections = λ k. if k == 7 then some none else none;
  num_connections = 8;
  entry_conn = λ k. 0;
  num_entries = 0;
  timing_wheel = record {
    wheels = round_wheel ∷ fresh_wheel ∷ [];
    curtick = 99;
    tick_interval = 1;
    nwheel = 2;
  };
  force_closed = [];
}

fresh_wheel-IsBlank : IsBlank fresh_wheel
fresh_wheel-IsBlank = record { valid = omega arith; nothing = λ i. get_or-replicate 100 [] i }

round_wheel-IsFull : IsFull 0 round_wheel
round_wheel-IsFull = record {
  valid = omega arith;
  full_size = refl;
  free = refl;
  ours = λ i. rw (get_or-replicate {A = Bucket} 100 [] i) tt;
}

pub one_connection-IsWatched : IsWatched one_connection
one_connection-IsWatched = record {
  running = record {
    counted = refl;
    ready = record {
      some_wheel = omega arith;
      first = round_wheel-IsFull;
      others = λ j one u. let e : j ≡ 1 = omega arith in rw e fresh_wheel-IsBlank;
    };
  };
  wide = refl;
  linked = λ c e h. absurd (ground (arith, h));
}
