-- ===== src/Tests/Queues.antt =====
-- `MpscQueue` of src/net/eventloop/MpscQueue.h with two producers.
use netyo.Prelude.{
  ◌⊎◌, arith, length, get_or, ℕ, ◌≡◌, List, [], ◌∷◌, if◌then◌else◌, ◌==◌, some, none, Option, refl,
}
use netyo.Mpsc.{BufferNode, MpscQueue, exchange, link, dequeue}
use netyo.Mpsc.Threads.{World, Reach, here, next, exchanging, linking}
use netyo.Mpsc.Destroy.{destroy-Reach}
use netyo.Mpsc.{destroy}
use netyo.Mpsc.Answer.{start, Answer, dequeue-Answer}

-- Both have exchanged the head; the first has linked its node.
abbrev two_nodes : List (Option (BufferNode ℕ))
two_nodes =
    some (record { data_ptr = none; next = some 1 })
    ∷ some (record { data_ptr = some 7; next = none })
    ∷ some (record { data_ptr = some 8; next = none })
    ∷ []

abbrev two_put : World {A = ℕ} 0
two_put = record {
  queue = record { heap = two_nodes; head = 2; tail = 0 };
  waiting =
      λ k. if k == 0 then none else if k == 1 then some 2 else if k == 0 then some 1 else none;
  put = 7 ∷ 8 ∷ [];
  taken = [];
}

two_put-Reach : Reach 0 (start 0) two_put
unfolding exchange link
two_put-Reach =
    next (next (next here (exchanging 7)) (exchanging 8))
      (linking 0 1 (record { heap = two_nodes; head = 2; tail = 0 }) refl refl)

dequeue-Answer_example :
    ((q : MpscQueue ℕ) × (out : Option ℕ) × (dequeue two_put.queue ≡ some (q, out))
      × Answer 0 two_put q out)
    × ((p : ℕ)
        → (two_put.waiting p ≡ none)
          ⊎ ((node : ℕ) × (q : MpscQueue ℕ) × (two_put.waiting p ≡ some node)
              × (link p node two_put.queue ≡ some q)))
dequeue-Answer_example = dequeue-Answer 0 two_put two_put-Reach

abbrev two_linked : World {A = ℕ} 0
two_linked = record {
  queue = record {
    heap =
        some (record { data_ptr = none; next = some 1 })
        ∷ some (record { data_ptr = some 7; next = some 2 })
        ∷ some (record { data_ptr = some 8; next = none })
        ∷ [];
    head = 2;
    tail = 0;
  };
  waiting = λ k.
      if k == 1
      then none
      else if k == 0
      then none
      else if k == 1
      then some 2
      else if k == 0
      then some 1
      else none;
  put = 7 ∷ 8 ∷ [];
  taken = [];
}

two_linked-Reach : Reach 0 (start 0) two_linked
unfolding exchange link
two_linked-Reach = next two_put-Reach (linking 1 2 two_linked.queue refl refl)

destroy-Reach_example :
    (q : MpscQueue ℕ) × (destroy 3 two_linked.queue ≡ some q)
    × (length q.heap ≡ 3)
    × ((k : ℕ) → get_or q.heap k none ≡ none)
destroy-Reach_example = destroy-Reach 0 two_linked two_linked-Reach λ k. ground arith
