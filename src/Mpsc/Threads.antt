-- ===== src/Mpsc/Threads.antt =====
-- `MpscQueue` of src/net/eventloop/MpscQueue.h with its producers and its consumer: their steps, and the
-- invariant under those of the producers.
use netyo.Prelude.{
  ℕ, ◌+◌, ◌-◌, ◌≤◌, ◌<◌, ◌≡◌, ◌∙◌, sym, List, [], ◌∷◌, ◌++◌, arith, length, get_or, if◌then◌else◌,
  ltb, ◌==◌, overwrite, get_or-overwrite, length-overwrite, length-append, get_or-append, take,
  length-take, get_or-take, list_ext, some, none, Option, true, false, refl, ◌&&◌, Bool,
}
use netyo.Mpsc.{BufferNode, MpscQueue, deref, exchange, link, dequeue}

module _ {A : Type 0} (d : A) where
  -- The queue and the threads: `waiting prevhead` is the node of a producer that has exchanged the head
  -- and has still to link it; `put` are the values in the order of the exchanges, `taken` those that
  -- the consumer got.
  pub record World : Type 0 where
    pub queue : MpscQueue A
    pub waiting : ℕ → Option ℕ
    pub put : List A
    pub taken : List A

  abbrev pub exchanged : A → World → World
  exchanged v w =
      let (q, prevhead, node) = exchange v w.queue in
      record {
        queue = q;
        waiting = λ k. if k == prevhead then some node else w.waiting k;
        put = w.put ++ v ∷ [];
        taken = w.taken;
      }

  -- A step of a producer or of the consumer.
  pub data Step (w : World) : World → Type 0 where
    exchanging : (v : A) → Step w (exchanged v w)
    linking :
        (prevhead node : ℕ) (q : MpscQueue A)
        → w.waiting prevhead ≡ some node
        → link prevhead node w.queue ≡ some q
        → Step w
            (record w { queue = q; waiting = λ k. if k == prevhead then none else w.waiting k })
    dequeuing :
        (q : MpscQueue A) (v : A)
        → dequeue w.queue ≡ some (q, some v)
        → Step w (record w { queue = q; taken = w.taken ++ v ∷ [] })

  pub data Reach (w : World) : World → Type 0 where
    here : Reach w w
    next : {u v : World} → Reach w u → Step u v → Reach w v

  abbrev pub is_none : Option ℕ → Bool
  is_none none = true
  is_none (some n) = false

  -- The node at `k`, from the tail to the head.
  abbrev pub node_at : World → ℕ → BufferNode A
  node_at w k = record {
    data_ptr = if ltb w.queue.tail k then some (get_or w.put (k - 1) d) else none;
    next = if ltb k w.queue.head && is_none (w.waiting k) then some (k + 1) else none;
  }

  pub record IsOrdered (w : World) : Type 0 where
    pub count : w.queue.head ≡ length w.put
    pub room : length w.queue.heap ≡ w.queue.head + 1
    pub behind : w.queue.tail ≤ w.queue.head
    pub cells : (k : ℕ) → w.queue.tail ≤ k → k ≤ w.queue.head → deref w.queue k ≡ some (node_at w k)
    pub waits :
        (k m : ℕ) → w.waiting k ≡ some m → (w.queue.tail ≤ k) × (k < w.queue.head) × (m ≡ k + 1)
    pub fifo : w.taken ≡ take w.queue.tail w.put

  take_prefix : (n : ℕ) (xs ys : List A) → n ≤ length xs → take n (xs ++ ys) ≡ take n xs
  take_prefix n xs ys h =
      list_ext d (take n (xs ++ ys)) (take n xs)
        (omega (arith, length-take n (xs ++ ys), length-take n xs, length-append xs ys))
        λ k p. ground (
          arith,
          length-take n (xs ++ ys),
          get_or-take n (xs ++ ys) k d,
          get_or-take n xs k d,
          get_or-append xs ys k d,
        )

  pub exchanged-IsOrdered : (v : A) (w : World) → IsOrdered w → IsOrdered (exchanged v w)
  unfolding exchange
  exchanged-IsOrdered v w h = record {
    count = omega (arith, h.count, h.room, length-append w.put (v ∷ []));
    room = omega (
      arith,
      h.room,
      length-append w.queue.heap (some (record { data_ptr = some v; next = none }) ∷ []),
    );
    behind = omega (arith, h.behind, h.room);
    cells = λ k p q. ground (
      arith,
      h.cells k,
      h.room,
      h.count,
      get_or-append w.queue.heap (some (record { data_ptr = some v; next = none }) ∷ []) k none,
      get_or-append w.put (v ∷ []) (k - 1) d,
    );
    waits = λ k m e. ground (arith, h.waits k m, h.room, h.behind, e);
    fifo =
        h.fifo ∙ sym (take_prefix w.queue.tail w.put (v ∷ []) (omega (arith, h.behind, h.count)));
  }

  abbrev pub linked : World → ℕ → MpscQueue A
  linked w p = record w.queue {
    heap = overwrite w.queue.heap p (some (record (node_at w p) { next = some (p + 1) }) ∷ []);
  }

  pub link-linked :
      (w : World) (p n : ℕ)
      → IsOrdered w
      → w.waiting p ≡ some n
      → link p n w.queue ≡ some (linked w p)
  unfolding link
  link-linked w p n h e =
      let (a, b, same) = h.waits p n e in rw (h.cells p a (omega (arith, b)), same) refl

  pub linked-IsOrdered :
      (w : World) (p n : ℕ)
      → IsOrdered w
      → w.waiting p ≡ some n
      → IsOrdered
          (record w { queue = linked w p; waiting = λ k. if k == p then none else w.waiting k })
  linked-IsOrdered w p n h e =
      let (a, b, same) = h.waits p n e in
      let node : BufferNode A = record (node_at w p) { next = some (p + 1) } in
      record {
        count = h.count;
        room = omega (arith, h.room, length-overwrite w.queue.heap p (some node ∷ []), b);
        behind = h.behind;
        cells = λ k q r. ground (
          arith,
          h.cells k q r,
          h.room,
          b,
          get_or-overwrite w.queue.heap p (some node ∷ []) k none,
        );
        waits = λ k m f. ground (arith, h.waits k m, f);
        fifo = h.fifo;
      }
