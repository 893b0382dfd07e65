-- ===== src/Server/Teardown.antt =====
-- The destruction of `TcpServer` (src/net/Server.h): its own destructor, which resets copies of the
-- `weak_ptr`s alone, then the members, the last one first. The timing wheel drops its entries, while the
-- table still has the connections; then the table drops the connections, and ends those that nothing
-- else holds: the open ones. (A closed one has no more to do, whoever holds it.)
pub mod Outcome
use netyo.Prelude.{ℕ, ◌&&◌, List, [], ◌∷◌, Option, none, some, ◌>>=◌}
use netyo.Epoll.{Epoll}
use netyo.Posix.{Socket}
use netyo.Wheel.Lease.{alive}
use netyo.Transport.{Conn, Protocol, CallBack, force_close}
use netyo.Server.Timeouts.{Timeouts, is_some, ended}
use netyo.Server.Expel.{Serving, replaced, end_entries}

-- The entries that have not ended, of connections that are in the table.
abbrev pub entries_left : Timeouts → List ℕ
entries_left s =
    ended s.num_entries
      λ i. alive i s.timing_wheel.wheels && is_some (s.connections (s.entry_conn i))

-- The connections in the table.
abbrev pub in_table : Timeouts → List ℕ
in_table s = ended s.num_connections λ k. is_some (s.connections k)

module _ (e : Epoll) (c : Socket) where
  -- `shared_from_this()` throws in a destructor, before the callback that it is an argument of.
  abbrev pub thrown : CallBack e c → CallBack e c
  thrown none = none
  thrown (some f) = some (λ t. none)

  module _ (p : Protocol e c) where
    -- `~TcpTransport()`; `none` is the exception, which ends the program.
    unfoldable pub destroy_conn : Conn e c → Option (Conn e c)
    destroy_conn = force_close e c (record p { connection_lost_cb = thrown p.connection_lost_cb })

    unfoldable pub destroy_conns : List ℕ → (ℕ → Conn e c) → Option (ℕ → Conn e c)
    unfolding destroy_conn
    destroy_conns [] conns = some conns
    destroy_conns (k ∷ ks) conns =
        destroy_conn (conns k) >>= λ t. destroy_conns ks (replaced e c k t conns)

    unfoldable pub destroy_server : Serving e c → Option (ℕ → Conn e c)
    unfolding destroy_conns
    destroy_server v =
        let s = v.timeouts in
        end_entries e c p s.entry_conn (entries_left s) v.conns >>= destroy_conns (in_table s)
