-- ===== src/Server/Accepting.antt =====
-- What the acceptor's callback of src/net/Server.h does with the connections that are waiting.
use netyo.Prelude.{
  ℕ, suc, ◌+◌, ◌-◌, ◌≤◌, ◌<◌, ◌≡◌, ◌∙◌, sym, ap, List, [], ◌∷◌, ◌++◌, arith, length, append_assoc,
  append-nil, some, none, Option, false, refl, subst,
}
use netyo.Prelude.{◌%◌, ◌>>=◌}
use netyo.Prelude.Int.{ℤ, pos, negsuc}
use netyo.Pool.{Pool, get_loop}
use native.Mathlib.Nat.{mod-lt}
use netyo.Pool.Robin.{loop_at, get_loop-next}
use netyo.Server.{Client, TcpServer, connect, accept_loop}

module _ {S : Type 0} (accept : S → S × ℤ) where
  -- The descriptors, none of them 0, that `accept` gives one after the other before it fails.
  unfoldable pub Gives : List ℕ → S → S → Type 0
  Gives [] u w = (n : ℕ) × (accept u ≡ (w, negsuc n))
  Gives (fd ∷ fds) u w =
      (n : ℕ) × (v : S) × (fd ≡ suc n) × (accept u ≡ (v, pos (suc n))) × Gives fds v w

  -- The connections of the descriptors, when the index of a pool was `m`; it has `n` loops to give.
  unfoldable pub clients : (ℕ → ℕ) → ℕ → ℕ → List ℕ → List Client
  clients loop_of n m [] = []
  clients loop_of n m (fd ∷ fds) =
      record { sockfd = fd; loop = loop_of ((m + 1) % n + 1) } ∷ clients loop_of n (m + 1) fds

  unfoldable pub entered : List Client → List (Client × Option ℕ)
  entered [] = []
  entered (c ∷ cs) = (c, none) ∷ entered cs

  -- A server with the connections of the descriptors.
  abbrev pub accepted : (ℕ → ℕ) → TcpServer S → ℕ → List ℕ → S → TcpServer S
  accepted loop_of s m fds w =
      let n : ℕ = length s.pool.threads - 1 in
      record s {
        socket = w;
        pool = record s.pool { thread_index = (m + length fds) % n };
        connections = s.connections ++ entered (clients loop_of n m fds);
        activated = s.activated ++ clients loop_of n m fds;
      }

  -- The threads of a pool but the first have their loops.
  abbrev pub AllLoops : (ℕ → ℕ) → Pool → Type 0
  AllLoops loop_of p =
      (i : ℕ) → i + 1 < length p.threads → loop_at p (i + 1) ≡ some (loop_of (i + 1))

  connect-accepted :
      (loop_of : ℕ → ℕ) (fd : ℕ) (s : TcpServer S) (m : ℕ) (v : S)
      → 2 ≤ length s.pool.threads
      → s.pool.thread_index ≡ m % (length s.pool.threads - 1)
      → AllLoops loop_of s.pool
      → connect fd (record s { socket = v }) ≡ some (accepted loop_of s m (fd ∷ []) v)
  unfolding connect clients entered
  connect-accepted loop_of fd s m v h i all =
      let e =
        ap (λ k. get_loop false (record s.pool { thread_index = k })) i
        ∙ get_loop-next s.pool m h in
      let there : loop_at s.pool ((m + 1) % (length s.pool.threads - 1) + 1)
          ≡ some (loop_of ((m + 1) % (length s.pool.threads - 1) + 1)) =
        all ((m + 1) % (length s.pool.threads - 1))
          (omega (arith, h, mod-lt (m + 1) {m = length s.pool.threads - 1})) in
      rw (e, there) refl

  accepted-accepted :
      (loop_of : ℕ → ℕ) (fd : ℕ) (fds : List ℕ) (s : TcpServer S) (m : ℕ) (v w : S)
      → accepted loop_of (accepted loop_of s m (fd ∷ []) v) (m + 1) fds w
        ≡ accepted loop_of s m (fd ∷ fds) w
  unfolding clients entered
  accepted-accepted loop_of fd fds s m v w =
      let n : ℕ = length s.pool.threads - 1 in
      let cs : List Client = clients loop_of n m (fd ∷ []) in
      let more : List Client = clients loop_of n (m + 1) fds in
      let index : m + 1 + length fds ≡ m + suc (length fds) = omega arith in
      λ j. record s {
        socket = w;
        pool = record s.pool { thread_index = index j % n };
        connections = append_assoc s.connections (entered cs) (entered more) j;
        activated = append_assoc s.activated cs more j;
      }

  -- In a pool of two threads or more, all of which but the first have their loops, the callback takes
  -- every connection that waits, if no descriptor is 0: each goes into the table and is activated, in
  -- the order of their acceptance, and is given the next loop of the pool, those of all threads but the
  -- first in turn.
  pub accept_loop-accepted :
      (loop_of : ℕ → ℕ) (fds : List ℕ) (s : TcpServer S) (m : ℕ) (w : S)
      → 2 ≤ length s.pool.threads
      → s.pool.thread_index ≡ m % (length s.pool.threads - 1)
      → AllLoops loop_of s.pool
      → Gives fds s.socket w
      → accept_loop accept (length fds + 1) s ≡ some (accepted loop_of s m fds w)
  unfolding Gives accept_loop clients entered
  accept_loop-accepted loop_of [] s m w h i all (n, a) =
      let same : m ≡ m + 0 = omega arith in
      rw (a, accept_loop)
        λ j. some (record s {
          socket = ap (λ r. r.0) a j;
          pool = record s.pool {
            thread_index = (i ∙ ap (λ k. k % (length s.pool.threads - 1)) same) j;
          };
          connections = sym (append-nil s.connections) j;
          activated = sym (append-nil s.activated) j;
        })
  accept_loop-accepted loop_of (fd ∷ fds) s m w h i all (n, v, e, a, g) =
      let first =
        subst (λ k. connect k (record s { socket = v }) ≡ some (accepted loop_of s m (fd ∷ []) v)) e
          (connect-accepted loop_of fd s m v h i all) in
      let rest =
        accept_loop-accepted loop_of fds (accepted loop_of s m (fd ∷ []) v) (m + 1) w h refl all g
        ∙ ap some (accepted-accepted loop_of fd fds s m v w) in
      let fuel : suc (length fds) + 1 ≡ suc (length fds + 1) = omega arith in
      let socket : (accept s.socket).0 ≡ v = ap (λ r. r.0) a in
      let step : accept_loop accept (suc (length fds + 1)) s
          ≡ (connect (suc n) (record s { socket = v }) >>= accept_loop accept (length fds + 1)) =
        rw (accept_loop, a)
          (ap
            (λ u. connect (suc n) (record s { socket = u }) >>= accept_loop accept (length fds + 1))
            socket) in
      ap (λ k. accept_loop accept k s) fuel
      ∙ step
      ∙ ap (λ m. m >>= accept_loop accept (length fds + 1)) first
      ∙ rest
