-- ===== src/Server.antt =====
-- The acceptor's callback and the connections of `TcpServer` (src/net/Server.h), with a pool of loops
-- for `get_loop`. `S` is the listening socket and `accept` the system call on it. A
-- connection is what it has been made of. `none` is a fault of `get_loop`, a null loop,
-- which the constructor of a connection dereferences, or fuel that has run out.
pub mod Accepting
pub mod Timeouts
pub mod Renewal
pub mod Tally
pub mod Idle
pub mod Countdown
pub mod Expel
pub mod Wiring
pub mod Teardown
use netyo.Prelude.{ℕ, zero, suc, List, [], ◌∷◌, ◌++◌, some, none, ◌>>=◌, Option, false}
use netyo.Prelude.Int.{ℤ, pos, negsuc}
use netyo.Pool.{Pool, get_loop}

-- A `TcpTransport`, as the server makes it.
pub record Client : Type 0 where
  pub sockfd : ℕ
  pub loop : ℕ

-- What the callback changes. A connection has a weak pointer, null at first, to its `TimeOutEntry`.
-- `activated` are the connections whose `activate` has been called.
pub record TcpServer (S : Type 0) : Type 0 where
  pub socket : S
  pub pool : Pool
  pub connections : List (Client × Option ℕ)
  pub activated : List Client

module _ {S : Type 0} where
  -- The connection that is made for a descriptor, put into the table and activated.
  unfoldable pub connect : ℕ → TcpServer S → Option (TcpServer S)
  connect sockfd s = do
    got ← get_loop false s.pool
    elim got.1 [
      | none ↦ none
      | some loop ↦
          let client : Client = record { sockfd = sockfd; loop = loop } in
          some (record s {
            pool = got.0;
            connections = s.connections ++ (client, none) ∷ [];
            activated = s.activated ++ client ∷ [];
          })
    ]

  module _ (accept : S → S × ℤ) where
    -- The loop of the callback, on fuel. The `close` of a socket that is none does nothing.
    unfoldable pub accept_loop : ℕ → TcpServer S → Option (TcpServer S)
    unfolding connect
    accept_loop zero s = none
    accept_loop (suc fuel) s =
        let (socket, fd) = accept s.socket in
        elim fd [
          | negsuc n ↦ some (record s { socket = socket })
          | pos zero ↦ connect 0 (record s { socket = socket })
          | pos (suc n) ↦ connect (suc n) (record s { socket = socket }) >>= accept_loop fuel
        ]
