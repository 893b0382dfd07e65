-- ===== src/Pool.antt =====
-- The classes `EventLoopThread` and `ThreadingEventLoop` of src/net/eventloop/ThreadingEventLoop.h and
-- ThreadingEventLoop.cpp. A loop is a name. `none` is a fault: an index out of bounds, a division by 0
-- or a null pointer.
pub mod Robin
pub mod Closing
pub mod Race
use netyo.Prelude.{
  ℕ, zero, suc, ◌+◌, ◌-◌, ◌%◌, Bool, true, false, Option, none, some, List, [], ◌∷◌, if◌then◌else◌,
  ◌==◌, ltb, length, get_elem?, tabulate, ◌>>=◌,
}
use netyo.Prelude.Int.{ℤ, pos, negsuc}

-- `EventLoopThread`: its loop, unless that is null, whether the loop has been told to close, and
-- whether the thread has been joined.
pub record LoopThread : Type 0 where
  pub loop : Option ℕ
  pub told : Bool
  pub joined : Bool

pub record Pool : Type 0 where
  pub thread_num : ℕ
  pub threads : List LoopThread
  pub thread_index : ℕ

abbrev pub is_null : Option ℕ → Bool
is_null none = true
is_null (some l) = false

-- `EventLoopThread(name)`, with the loop that it starts.
unfoldable pub start_thread : ℕ → LoopThread
start_thread l = record { loop = some l; told = false; joined = false }

-- `join()`
unfoldable pub join_thread : LoopThread → LoopThread
join_thread t = if is_null t.loop then t else record t { joined = true }

-- What `start_loop` does last, in the thread itself, after the loop has been told to close.
unfoldable pub end_loop : LoopThread → LoopThread
end_loop t = record t { loop = none }

-- `close()`. `early` says whether the thread comes to the end of `start_loop` before `join` looks at
-- `loop`.
unfoldable pub close_thread : Bool → LoopThread → Option LoopThread
unfolding join_thread end_loop
close_thread early t = elim t.loop [
  | none ↦ none
  | some l ↦
      let closing = record t { told = true } in
      some (end_loop (join_thread (if early then end_loop closing else closing)))
]

-- `ThreadingEventLoop(num, name)`; `loop_of` names the loop of each thread.
unfoldable pub new_pool : (ℕ → ℕ) → ℤ → Pool
unfolding start_thread
new_pool loop_of (pos num) =
    let n = if num == 0 then 1 else num in
    record {
      thread_num = n;
      threads = tabulate n (λ i. start_thread (loop_of i));
      thread_index = 0;
    }
new_pool loop_of (negsuc num) = record {
  thread_num = 1;
  threads = start_thread (loop_of 0) ∷ [];
  thread_index = 0;
}

-- `close()`, where `early` says of each thread whether it ends early.
unfoldable pub close_threads : (ℕ → Bool) → List LoopThread → Option (List LoopThread)
close_threads early [] = some []
close_threads early (t ∷ ts) = do
  t' ← close_thread (early 0) t
  ts' ← close_threads (λ i. early (suc i)) ts
  some (t' ∷ ts')

-- `~EventLoopThread()`, before its members end.
unfoldable pub end_thread : Bool → LoopThread → Option LoopThread
unfolding close_thread
end_thread early t = if is_null t.loop then some t else close_thread early t

-- `join()` of the pool.
unfoldable pub join_threads : List LoopThread → List LoopThread
unfolding join_thread
join_threads [] = []
join_threads (t ∷ ts) = join_thread t ∷ join_threads ts

-- `get_loop(mainloop)`: the pool and the loop. A pool has a thread at least.
unfoldable pub get_loop : Bool → Pool → Option (Pool × Option ℕ)
get_loop true p = get_elem? p.threads 0 >>= λ t. some (p, t.loop)
get_loop false p =
    let workers = length p.threads - 1 in
    let index = (p.thread_index + 1) % workers in
    if workers == 0
    then none
    else (get_elem? p.threads (index + 1) >>= λ t. some (record p { thread_index = index }, t.loop))
