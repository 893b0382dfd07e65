-- ===== src/Mpsc/Fifo.antt =====
-- The invariant of `MpscQueue` of src/net/eventloop/MpscQueue.h under all interleavings of its producers
-- with its consumer.
use netyo.Prelude.{
  ℕ, zero, suc, ◌+◌, ◌<◌, ◌≡◌, ◌∙◌, ap, List, [], ◌∷◌, ◌++◌, arith, length, get_or, if◌then◌else◌,
  ◌==◌, overwrite, get_or-overwrite, length-overwrite, take, dec_lt, Option-cases, ◌⊎◌, some, none,
  Option, refl, inl, inr, subst,
}
use netyo.Mpsc.{BufferNode, MpscQueue, dequeue, dequeue_from}
use netyo.Mpsc.Threads.{
  World, Step, exchanging, linking, dequeuing, Reach, here, next, node_at, IsOrdered,
  exchanged-IsOrdered, linked, link-linked, linked-IsOrdered,
}

module _ {A : Type 0} (d : A) where
  -- The queue after a `dequeue` that takes a value.
  abbrev pub advanced : World d → MpscQueue A
  advanced w =
      let t = w.queue.tail in
      let moved : BufferNode A = record (node_at d w (t + 1)) { data_ptr = none } in
      record w.queue {
        heap = overwrite (overwrite w.queue.heap (t + 1) (some moved ∷ [])) t (none ∷ []);
        tail = t + 1;
      }

  -- The first value is there to be taken: its producer has linked it.
  abbrev pub IsReady : World d → Type 0
  IsReady w = (w.queue.tail < w.queue.head) × (w.waiting w.queue.tail ≡ none)

  dequeue_from-advanced :
      (w : World d)
      → IsOrdered d w
      → IsReady w
      → dequeue_from (w.queue.tail + 1) w.queue
        ≡ some (advanced w, some (get_or w.put w.queue.tail d))
  unfolding dequeue_from
  dequeue_from-advanced w h r =
      rw (h.cells (w.queue.tail + 1) (omega arith) (omega (arith, r.0))) (ground arith)

  pub take_next :
      (n : ℕ) (xs : List A) → n < length xs → take n xs ++ get_or xs n d ∷ [] ≡ take (n + 1) xs
  take_next n [] p = absurd (omega (arith, p))
  take_next zero (x ∷ xs) p = refl
  take_next (suc n) (x ∷ xs) p =
      let e : suc n + 1 ≡ suc (n + 1) = omega arith in
      rw e (ap (λ l. x ∷ l) (take_next n xs (omega (arith, p))))

  pub dequeue-advanced :
      (w : World d)
      → IsOrdered d w
      → IsReady w
      → dequeue w.queue ≡ some (advanced w, some (get_or w.put w.queue.tail d))
  unfolding dequeue dequeue_from
  dequeue-advanced w h r =
      rw (h.cells w.queue.tail (omega arith) h.behind)
        (ground (arith, r, dequeue_from-advanced w h r))

  pub dequeue-nothing :
      (w : World d)
      → IsOrdered d w
      → ((n : ℕ) × (w.waiting w.queue.tail ≡ some n)) ⊎ (w.queue.tail ≡ w.queue.head)
      → dequeue w.queue ≡ some (w.queue, none)
  unfolding dequeue
  dequeue-nothing w h r = ground (arith, h.cells w.queue.tail, h.behind, r)

  pub advanced-IsOrdered :
      (w : World d)
      → IsOrdered d w
      → IsReady w
      → IsOrdered d
          (record w { queue = advanced w; taken = w.taken ++ get_or w.put w.queue.tail d ∷ [] })
  advanced-IsOrdered w h r =
      let t : ℕ = w.queue.tail in
      let moved : BufferNode A = record (node_at d w (t + 1)) { data_ptr = none } in
      let once : List (Option (BufferNode A)) = overwrite w.queue.heap (t + 1) (some moved ∷ []) in
      let len1 : length once ≡ length w.queue.heap =
        omega (arith, length-overwrite w.queue.heap (t + 1) (some moved ∷ []), h.room, r.0) in
      record {
        count = h.count;
        room = omega (arith, h.room, len1, r.0, length-overwrite once t (none ∷ []));
        behind = omega (arith, r.0);
        cells = λ k p q. ground (
          arith,
          h.cells k,
          h.room,
          len1,
          r.0,
          get_or-overwrite once t (none ∷ []) k none,
          get_or-overwrite w.queue.heap (t + 1) (some moved ∷ []) k none,
        );
        waits = λ k m f. ground (arith, h.waits k m, f, r.1);
        fifo =
            ap (λ l. l ++ get_or w.put t d ∷ []) h.fifo
            ∙ take_next t w.put (omega (arith, h.count, r.0));
      }

  -- A valid queue has its first value ready, or not.
  pub tail-IsReady :
      (w : World d)
      → IsOrdered d w
      → IsReady w ⊎ (((n : ℕ) × (w.waiting w.queue.tail ≡ some n)) ⊎ (w.queue.tail ≡ w.queue.head))
  tail-IsReady w h = elim (dec_lt w.queue.tail w.queue.head) [
    | no n ↦ inr (inr (omega (arith, n, h.behind)))
    | yes p ↦ elim (Option-cases (w.waiting w.queue.tail)) [
      | inl e ↦ inl (p, e)
      | inr (n, e) ↦ inr (inl (n, e))
    ]
  ]

  pub Step-IsOrdered : (u v : World d) → Step d u v → IsOrdered d u → IsOrdered d v
  Step-IsOrdered u _ (exchanging v) h = exchanged-IsOrdered d v u h
  Step-IsOrdered u _ (linking p n q e f) h =
      let same : linked d u p ≡ q = let g = link-linked d u p n h e in cc in
      subst
        (λ x.
          IsOrdered d (record u { queue = x; waiting = λ k. if k == p then none else u.waiting k }))
        same (linked-IsOrdered d u p n h e)
  Step-IsOrdered u _ (dequeuing q v e) h = elim (tail-IsReady u h) [
    | inl r ↦
        let g = dequeue-advanced u h r in
        let same : advanced u ≡ q = cc in
        let value : get_or u.put u.queue.tail d ≡ v = cc in
        subst (λ x. IsOrdered d (record u { queue = q; taken = u.taken ++ x ∷ [] })) value
          (subst
            (λ x.
              IsOrdered d
                (record u { queue = x; taken = u.taken ++ get_or u.put u.queue.tail d ∷ [] }))
            same (advanced-IsOrdered u h r))
    | inr r ↦ let g = dequeue-nothing u h r in absurd cc
  ]

  pub Reach-IsOrdered : (u v : World d) → Reach d u v → IsOrdered d u → IsOrdered d v
  Reach-IsOrdered u v here h = h
  Reach-IsOrdered u v (next {u = w} r s) h = Step-IsOrdered w v s (Reach-IsOrdered u w r h)
