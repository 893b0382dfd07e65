-- ===== src/Posix.antt =====
-- The system calls that the code makes on a connected socket, as an interface: `readv` and `write`
-- as their manual pages describe them. Nothing here is code of the repository.
pub mod Calls
use netyo.Prelude.{ℕ, ◌≤◌, ◌≡◌, ◌++◌, List, Option, some, none, length, take}

-- A read or write gives `none` where the call returns -1.
pub record Socket : Type 1 where
  -- The state of the connection that the calls see and change.
  pub State : Type 0
  -- Fills at most so many bytes of the buffers.
  pub readv : State → ℕ → State × Option (List ℕ)
  pub write : State → List ℕ → State × Option ℕ
  -- The bytes that arrive until the caller stops reading and that it has not read yet.
  pub unread : State → List ℕ
  -- The bytes that have been accepted for sending.
  pub sent : State → List ℕ
  -- `shutdown(2)` of the reading side, or of both.
  pub shutdown_read : State → State
  pub shutdown_both : State → State
  -- `getsockopt(SO_ERROR)`: the pending error, which the call clears; 0 is none.
  pub take_error : State → State × ℕ
  pub readv_some :
      (k : State) (n : ℕ) (bs : List ℕ)
      → (readv k n).1 ≡ some bs
      → (length bs ≤ n) × (unread k ≡ bs ++ unread (readv k n).0)
  pub readv_none : (k : State) (n : ℕ) → (readv k n).1 ≡ none → unread (readv k n).0 ≡ unread k
  pub write_some :
      (k : State) (bs : List ℕ) (n : ℕ)
      → (write k bs).1 ≡ some n
      → (n ≤ length bs) × (sent (write k bs).0 ≡ sent k ++ take n bs)
  pub write_none : (k : State) (bs : List ℕ) → (write k bs).1 ≡ none → sent (write k bs).0 ≡ sent k
