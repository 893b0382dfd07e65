-- ===== src/Posix/Calls.antt =====
-- The system calls that make, name and close sockets, as src/net/Socket.h makes them. A descriptor is an
-- `int`; where a call is given an address it is also given its length. Nothing here is code of the
-- repository.
use netyo.Prelude.{ℕ, Option}
use netyo.Prelude.Int.{ℤ}

-- `A` is the type of addresses. A call that fails returns a negative number, or `none`.
pub record Calls (A : Type 0) : Type 1 where
  pub State : Type 0
  -- `socket(family, type, proto)`
  pub socket : State → ℕ → ℕ → ℕ → State × ℤ
  pub close : State → ℕ → State
  -- `setsockopt(fd, level, optname, value)` of an `int`.
  pub setsockopt : State → ℤ → ℕ → ℕ → ℕ → State
  pub bind : State → ℤ → A → ℕ → State × ℤ
  pub connect : State → ℤ → A → ℕ → State × ℤ
  pub listen : State → ℤ → ℕ → State × ℤ
  pub accept4 : State → ℤ → State × ℤ
  pub shutdown : State → ℤ → ℕ → State × ℤ
  pub getsockname : State → ℤ → Option A
  pub getpeername : State → ℤ → Option A
  -- `getsockopt(fd, SOL_SOCKET, SO_ERROR)`
  pub sock_error : State → ℤ → State × Option ℕ
  pub errno : State → ℕ
  pub write : State → ℤ → ℕ → State × ℤ
