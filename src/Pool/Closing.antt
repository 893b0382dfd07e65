-- ===== src/Pool/Closing.antt =====
-- The end of the threads of a pool of src/net/eventloop/ThreadingEventLoop.cpp.
use netyo.Prelude.{
  ℕ, suc, ◌≡◌, ap, List, [], ◌∷◌, arith, length, ◌⊎◌, some, none, true, false, refl, inl, inr, Bool,
}
use netyo.Prelude.{not}
use netyo.Pool.{
  LoopThread, is_null, close_thread, close_threads, join_threads, join_thread, end_loop,
}

-- Every thread has its loop.
abbrev AllRunning : List LoopThread → Type 0
AllRunning [] = Unit {0}
AllRunning (t ∷ ts) = (is_null t.loop ≡ false) × (t.joined ≡ false) × AllRunning ts

-- Every thread has lost its loop, and has been joined if it had not ended first.
abbrev AllClosed : (ℕ → Bool) → List LoopThread → Type 0
AllClosed early [] = Unit {0}
AllClosed early (t ∷ ts) =
    (t.loop ≡ none)
    × (t.told ≡ true)
    × (t.joined ≡ not (early 0))
    × AllClosed (λ i. early (suc i)) ts

close_thread-closed :
    (early : Bool) (t : LoopThread)
    → is_null t.loop ≡ false
    → t.joined ≡ false
    → close_thread early t ≡ some (record { loop = none; told = true; joined = not early })
unfolding close_thread join_thread end_loop
close_thread-closed early t h j = ground (arith, h, j)

join_threads-AllClosed :
    (early : ℕ → Bool) (ts : List LoopThread) → AllClosed early ts → join_threads ts ≡ ts
unfolding join_threads join_thread
join_threads-AllClosed early [] h = refl
join_threads-AllClosed early (t ∷ ts) h =
    let rest = join_threads-AllClosed (λ i. early (suc i)) ts h.3 in ground (arith, h.0, rest)

closed_again :
    (again : ℕ → Bool) (u : LoopThread) (us : List LoopThread)
    → u.loop ≡ none
    → close_threads again (u ∷ us) ≡ none
unfolding close_threads close_thread
closed_again again u us e = rw (e, close_thread) refl

-- `close()` of a pool whose threads run does not fault. It leaves every thread without a loop and told
-- to end, and has joined a thread just if that had not come to its end first; a `join()` after it joins
-- none of the others. A second `close()` goes through a null pointer, unless the pool has no thread.
close_threads-AllClosed :
    (early : ℕ → Bool) (ts : List LoopThread)
    → AllRunning ts
    → (us : List LoopThread) × (close_threads early ts ≡ some us)
      × (length us ≡ length ts)
      × AllClosed early us
      × (join_threads us ≡ us)
      × ((length us ≡ 0) ⊎ ((again : ℕ → Bool) → close_threads again us ≡ none))
unfolding close_threads
close_threads-AllClosed early [] h = ([], refl, refl, tt, unfold join_threads in refl, inl refl)
close_threads-AllClosed early (t ∷ ts) h =
    let (us, e, l, c, _, _) = close_threads-AllClosed (λ i. early (suc i)) ts h.2 in
    let u : LoopThread = record { loop = none; told = true; joined = not (early 0) } in
    let all : AllClosed early (u ∷ us) = (refl, refl, refl, c) in
    (
      u ∷ us,
      rw (close_thread-closed (early 0) t h.0 h.1, e) refl,
      ap suc l,
      all,
      join_threads-AllClosed early (u ∷ us) all,
      inr λ again. closed_again again u us refl,
    )
