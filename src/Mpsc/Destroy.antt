-- ===== src/Mpsc/Destroy.antt =====
-- The destructor of `MpscQueue` of src/net/eventloop/MpscQueue.h.
use netyo.Prelude.{
  ℕ, zero, suc, ◌+◌, ◌-◌, ◌<◌, ◌≡◌, ◌∙◌, ap, List, [], ◌∷◌, ◌++◌, arith, length, get_or, overwrite,
  get_or-overwrite, length-overwrite, get_or-append, get_or-eq_default, length-take, some, none,
  Option, refl, inl, inr, subst,
}
use netyo.Mpsc.{BufferNode, MpscQueue, deref, exchange, destroy}
use netyo.Mpsc.Threads.{
  World, Step, Reach, here, next, exchanging, linking, dequeuing, exchanged, linked, link-linked,
  node_at, IsOrdered,
}
use netyo.Mpsc.Fifo.{
  advanced, IsReady, dequeue-advanced, dequeue-nothing, advanced-IsOrdered, tail-IsReady,
  Reach-IsOrdered,
}
use netyo.Mpsc.Answer.{start, start-IsOrdered}

module _ {A : Type 0} (d : A) where
  -- The nodes before the tail have been deleted.
  abbrev IsFreed : MpscQueue A → Type 0
  IsFreed q = (k : ℕ) → k < q.tail → deref q k ≡ none

  exchanged-IsFreed :
      (v : A) (w : World d) → IsOrdered d w → IsFreed w.queue → IsFreed (exchanged d v w).queue
  unfolding exchange
  exchanged-IsFreed v w h f k p = ground (
    arith,
    f k p,
    h.room,
    h.behind,
    get_or-append w.queue.heap (some (record { data_ptr = some v; next = none }) ∷ []) k none,
  )

  linked-IsFreed :
      (w : World d) (p n : ℕ)
      → IsOrdered d w
      → w.waiting p ≡ some n
      → IsFreed w.queue
      → IsFreed (linked d w p)
  linked-IsFreed w p n h e f k q =
      let (a, b, _) = h.waits p n e in
      let node : BufferNode A = record (node_at d w p) { next = some (p + 1) } in
      ground (arith, f k q, h.room, a, b, get_or-overwrite w.queue.heap p (some node ∷ []) k none)

  advanced-IsFreed :
      (w : World d) → IsOrdered d w → IsReady d w → IsFreed w.queue → IsFreed (advanced d w)
  advanced-IsFreed w h r f k q =
      let t : ℕ = w.queue.tail in
      let moved : BufferNode A = record (node_at d w (t + 1)) { data_ptr = none } in
      let once : List (Option (BufferNode A)) = overwrite w.queue.heap (t + 1) (some moved ∷ []) in
      ground (
        arith,
        f k,
        h.room,
        r.0,
        length-overwrite w.queue.heap (t + 1) (some moved ∷ []),
        get_or-overwrite once t (none ∷ []) k none,
        get_or-overwrite w.queue.heap (t + 1) (some moved ∷ []) k none,
      )

  Step-IsFreed : (u v : World d) → Step d u v → IsOrdered d u → IsFreed u.queue → IsFreed v.queue
  Step-IsFreed u _ (exchanging v) h f = exchanged-IsFreed v u h f
  Step-IsFreed u _ (linking p n q e g) h f =
      let same : linked d u p ≡ q = let l = link-linked d u p n h e in cc in
      subst IsFreed same (linked-IsFreed u p n h e f)
  Step-IsFreed u _ (dequeuing q v e) h f = elim (tail-IsReady d u h) [
    | inl r ↦
        let same : advanced d u ≡ q = let g = dequeue-advanced d u h r in cc in
        subst IsFreed same (advanced-IsFreed u h r f)
    | inr r ↦ let g = dequeue-nothing d u h r in absurd cc
  ]

  Reach-IsFreed : (w : World d) → Reach d (start d) w → IsFreed w.queue
  Reach-IsFreed w here = λ k p. absurd (omega (arith, p))
  Reach-IsFreed w (next {u = u} r s) =
      Step-IsFreed u w s (Reach-IsOrdered d (start d) u r (start-IsOrdered d)) (Reach-IsFreed u r)

  destroy_loop :
      (n : ℕ) (w : World d)
      → IsOrdered d w
      → IsFreed w.queue
      → ((k : ℕ) → w.waiting k ≡ none)
      → w.queue.head ≡ w.queue.tail + n
      → (q : MpscQueue A) × (destroy (n + 1) w.queue ≡ some q)
        × (length q.heap ≡ length w.queue.heap)
        × ((k : ℕ) → deref q k ≡ none)
  unfolding destroy
  destroy_loop zero w h f idle e =
      let empty : w.queue.tail ≡ w.queue.head = omega (arith, e) in
      let heap : List (Option (BufferNode A)) = overwrite w.queue.heap w.queue.head (none ∷ []) in
      (
        record w.queue { heap = heap },
        rw (dequeue-nothing d w h (inr empty), h.cells w.queue.head h.behind (omega arith)) refl,
        length-overwrite w.queue.heap w.queue.head (none ∷ []),
        λ k. ground (
          arith,
          f k,
          h.room,
          e,
          get_or-overwrite w.queue.heap w.queue.head (none ∷ []) k none,
          get_or-eq_default w.queue.heap k none,
        ),
      )
  destroy_loop (suc n) w h f idle e =
      let r : IsReady d w = (omega (arith, e), idle w.queue.tail) in
      let (q, g, l, freed) =
        destroy_loop n
          (record w { queue = advanced d w; taken = w.taken ++ get_or w.put w.queue.tail d ∷ [] })
          (advanced-IsOrdered d w h r) (advanced-IsFreed w h r f) idle (omega (arith, e)) in
      let t : ℕ = w.queue.tail in
      let moved : BufferNode A = record (node_at d w (t + 1)) { data_ptr = none } in
      let once : List (Option (BufferNode A)) = overwrite w.queue.heap (t + 1) (some moved ∷ []) in
      let long : length q.heap ≡ length w.queue.heap =
        l
        ∙ length-overwrite once t (none ∷ [])
        ∙ length-overwrite w.queue.heap (t + 1) (some moved ∷ []) in
      let more : suc n + 1 ≡ suc (n + 1) = omega arith in
      (q, ap (λ m. destroy m w.queue) more ∙ rw (destroy, dequeue-advanced d w h r) g, long, freed)

  -- Whatever the producers and the consumer have done to a queue since it was new, in any order of their
  -- steps: if every producer has linked its node, then the destructor does not fault, and has deleted
  -- every node that was ever made. It dequeues as often as there are values left, and once more.
  pub destroy-Reach :
      (w : World d)
      → Reach d (start d) w
      → ((k : ℕ) → w.waiting k ≡ none)
      → (q : MpscQueue A) × (destroy (length w.put - length w.taken + 1) w.queue ≡ some q)
        × (length q.heap ≡ length w.put + 1)
        × ((k : ℕ) → get_or q.heap k none ≡ none)
  destroy-Reach w r idle =
      let h = Reach-IsOrdered d (start d) w r (start-IsOrdered d) in
      let n : ℕ = w.queue.head - w.queue.tail in
      let (q, g, l, freed) =
        destroy_loop n w h (Reach-IsFreed w r) idle (omega (arith, h.behind)) in
      let out : length w.taken ≡ w.queue.tail =
        ap length h.fifo ∙ ground (arith, length-take w.queue.tail w.put, h.behind, h.count) in
      let fuel : length w.put - length w.taken + 1 ≡ n + 1 = omega (arith, out, h.count) in
      (q, ap (λ m. destroy m w.queue) fuel ∙ g, l ∙ omega (arith, h.room, h.count), freed)
