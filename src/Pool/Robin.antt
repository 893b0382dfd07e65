-- ===== src/Pool/Robin.antt =====
-- The loops that `get_loop` of src/net/eventloop/ThreadingEventLoop.cpp gives, one after the other.
use netyo.Prelude.{
  ℕ, zero, suc, ◌+◌, ◌-◌, ◌≤◌, ◌<◌, ◌≡◌, ap, List, [], ◌∷◌, arith, length, get_or, ◌==◌, some,
  ◌>>=◌, Option, false, refl,
}
use netyo.Prelude.{◌%◌, fun_ext, get_elem?-get_or, tabulate}
use native.Mathlib.Nat.{mod-add-mod, mod-lt}
use netyo.Pool.{Pool, get_loop, start_thread}

-- `k` calls of `get_loop(false)`.
unfoldable pub get_loops : ℕ → Pool → Option (Pool × List (Option ℕ))
get_loops zero p = some (p, [])
get_loops (suc k) p = do
  first ← get_loop false p
  more ← get_loops k first.0
  some (more.0, first.1 ∷ more.1)

-- The loop of thread `i`.
abbrev pub loop_at : Pool → ℕ → Option ℕ
loop_at p i = (get_or p.threads i (start_thread 0)).loop

pub get_loop-next :
    (p : Pool) (m : ℕ)
    → 2 ≤ length p.threads
    → let n = length p.threads - 1 in
      get_loop false (record p { thread_index = m % n })
      ≡ some (record p { thread_index = (m + 1) % n }, loop_at p ((m + 1) % n + 1))
unfolding get_loop
get_loop-next p m h =
    let n : ℕ = length p.threads - 1 in
    let some_worker : (n == 0) ≡ false = ground arith in
    let inside : (m + 1) % n + 1 < length p.threads = omega (arith, mod-lt (m + 1) {m = n}) in
    rw
      (
        some_worker,
        mod-add-mod m n 1,
        get_elem?-get_or p.threads ((m + 1) % n + 1) (start_thread 0) inside,
      )
      refl

robin_step :
    (k : ℕ) (p : Pool) (m : ℕ)
    → 2 ≤ length p.threads
    → let n = length p.threads - 1 in
      get_loops k (record p { thread_index = m % n })
      ≡ some (
        record p { thread_index = (m + k) % n },
        tabulate k (λ j. loop_at p ((m + 1 + j) % n + 1)),
      )
unfolding get_loops
robin_step zero p m h =
    let same : m ≡ m + 0 = omega arith in
    ap (λ i. some (record p { thread_index = i % (length p.threads - 1) }, [])) same
robin_step (suc k) p m h =
    let n : ℕ = length p.threads - 1 in
    let last : m + 1 + k ≡ m + suc k = omega arith in
    let first : m + 1 ≡ m + 1 + 0 = omega arith in
    let others : (λ (j : ℕ). m + 1 + 1 + j) ≡ (λ j. m + 1 + suc j) = fun_ext λ j. omega arith in
    rw (get_loop-next p m h, robin_step k p (m + 1) h)
      λ i. some (
        record p { thread_index = last i % n },
        loop_at p (first i % n + 1) ∷ tabulate k (λ j. loop_at p (others i j % n + 1)),
      )

-- In a pool of two threads or more, calls of `get_loop(false)` give the loops of all threads but the
-- first, in turn, and never fault: the call `j` after one at which the index was `m` gives that of the
-- thread `(m + 1 + j) % (size - 1) + 1`, which is less than the size.
pub get_loops-robin :
    (k : ℕ) (p : Pool) (m : ℕ)
    → 2 ≤ length p.threads
    → let n = length p.threads - 1 in
      (get_loops k (record p { thread_index = m % n })
        ≡ some (
          record p { thread_index = (m + k) % n },
          tabulate k (λ j. loop_at p ((m + 1 + j) % n + 1)),
        ))
      × ((j : ℕ) → (m + 1 + j) % n + 1 < length p.threads)
get_loops-robin k p m h =
    (robin_step k p m h, λ j. omega (arith, mod-lt (m + 1 + j) {m = length p.threads - 1}))
