-- ===== src/Server/Expel.antt =====
-- The end of a `TimeOutEntry` of src/net/Server.h calls `force_close` of its connection
-- (src/net/Transport.cpp): the timeouts of the server together with its connections.
pub mod Once
use netyo.Prelude.{ℕ, List, [], ◌∷◌, Option, none, some, ◌>>=◌, if◌then◌else◌, ◌==◌, length, drop}
use netyo.Epoll.{Epoll}
use netyo.Posix.{Socket}
use netyo.Transport.{Conn, Protocol, force_close}
use netyo.Server.Timeouts.{Timeouts}
use netyo.Server.Countdown.{Event, serve}

-- What happens in the server's loop, and the end of a connection for another reason than its timeout.
pub data Turn : Type 0 where
  event : Event → Turn
  gives_up : ℕ → Turn

module _ (e : Epoll) (c : Socket) where
  -- The timeouts, and the connection of each number.
  pub record Serving : Type 0 where
    pub timeouts : Timeouts
    pub conns : ℕ → Conn e c

  abbrev pub replaced : ℕ → Conn e c → (ℕ → Conn e c) → ℕ → Conn e c
  replaced n t conns k = if k == n then t else conns k

  module _ (p : Protocol e c) where
    -- The end of some entries, one after the other.
    unfoldable pub end_entries : (ℕ → ℕ) → List ℕ → (ℕ → Conn e c) → Option (ℕ → Conn e c)
    end_entries conn_of [] conns = some conns
    end_entries conn_of (x ∷ xs) conns = force_close e c p (conns (conn_of x)) >>= λ t.
        end_entries conn_of xs (replaced (conn_of x) t conns)

    -- What happens in the server's loop, with the end of the entries that it drops.
    unfoldable pub serve_event : Event → Serving → Option Serving
    unfolding serve end_entries
    serve_event x v = do
      s ← serve x v.timeouts
      let new = drop (length v.timeouts.force_closed) s.force_closed
      conns ← end_entries s.entry_conn new v.conns
      some (record { timeouts = s; conns = conns })

    -- `force_close` of a connection by the program, or by an event of its own.
    unfoldable pub serve_turn : Turn → Serving → Option Serving
    unfolding serve_event
    serve_turn (event x) v = serve_event x v
    serve_turn (gives_up k) v =
        force_close e c p (v.conns k) >>= λ t. some (record v { conns = replaced k t v.conns })

    unfoldable pub serve_turns : List Turn → Serving → Option Serving
    unfolding serve_turn
    serve_turns [] v = some v
    serve_turns (x ∷ xs) v = serve_turn x v >>= serve_turns xs
