-- ===== src/Mpsc/Answer.antt =====
-- What the threads of a `MpscQueue` of src/net/eventloop/MpscQueue.h get, from a new queue on.
use netyo.Prelude.{
  ◌⊎◌, Option-cases, take-append-drop, ℕ, ◌+◌, ◌≡◌, ◌∙◌, sym, ap, List, [], ◌∷◌, ◌++◌, arith,
  get_or, take, drop, append_assoc, take-all, some, none, Option, refl, inl, inr,
}
use netyo.Mpsc.{MpscQueue, new_queue, link, dequeue}
use netyo.Mpsc.Threads.{World, Reach, IsOrdered, linked, link-linked}
use netyo.Mpsc.Fifo.{
  advanced, dequeue-advanced, dequeue-nothing, tail-IsReady, Reach-IsOrdered, take_next,
}

module _ {A : Type 0} (d : A) where
  -- A new queue, and no producer at work.
  abbrev pub start : World d
  start = record { queue = new_queue; waiting = λ k. none; put = []; taken = [] }

  pub start-IsOrdered : IsOrdered d start
  start-IsOrdered = record {
    count = refl;
    room = refl;
    behind = omega arith;
    cells = λ k p q. let e : k ≡ 0 = omega arith in rw e (ground arith);
    waits = λ k m e. absurd cc;
    fifo = refl;
  }

  link-waiting :
      (w : World d) (p : ℕ)
      → Reach d start w
      → (w.waiting p ≡ none)
        ⊎ ((node : ℕ) × (q : MpscQueue A) × (w.waiting p ≡ some node)
            × (link p node w.queue ≡ some q))
  link-waiting w p r = elim (Option-cases (w.waiting p)) [
    | inl e ↦ inl e
    | inr (n, e) ↦
        inr
          (n, linked d w p, e, link-linked d w p n (Reach-IsOrdered d start w r start-IsOrdered) e)
  ]

  -- What a `dequeue` may give: the value after those taken, nothing where all have been taken, or
  -- nothing while a producer has still to link the next one.
  pub data Answer (w : World d) : MpscQueue A → Option A → Type 0 where
    value :
        (q : MpscQueue A) (v : A) (rest : List A)
        → w.put ≡ w.taken ++ v ∷ rest
        → Answer w q (some v)
    drained : w.put ≡ w.taken → Answer w w.queue none
    unlinked : (n : ℕ) → w.waiting w.queue.tail ≡ some n → Answer w w.queue none

  dequeue_answer :
      (w : World d)
      → Reach d start w
      → (q : MpscQueue A) × (out : Option A) × (dequeue w.queue ≡ some (q, out)) × Answer w q out
  dequeue_answer w r =
      let h = Reach-IsOrdered d start w r start-IsOrdered in
      let t : ℕ = w.queue.tail in
      elim (tail-IsReady d w h) [
        | inl p ↦
            let all : w.put ≡ w.taken ++ get_or w.put t d ∷ drop (t + 1) w.put =
              sym (take-append-drop (t + 1) w.put)
              ∙ ap (λ l. l ++ drop (t + 1) w.put)
                  (sym (take_next d t w.put (omega (arith, h.count, p.0))))
              ∙ append_assoc (take t w.put) (get_or w.put t d ∷ []) (drop (t + 1) w.put)
              ∙ ap (λ l. l ++ get_or w.put t d ∷ drop (t + 1) w.put) (sym h.fifo) in
            (
              advanced d w,
              some (get_or w.put t d),
              dequeue-advanced d w h p,
              value (advanced d w) (get_or w.put t d) (drop (t + 1) w.put) all,
            )
        | inr n ↦ (
          w.queue,
          none,
          dequeue-nothing d w h n,
          elim n [
            | inl (m, e) ↦ unlinked m e
            | inr e ↦ drained (sym (h.fifo ∙ take-all t w.put (omega (arith, e, h.count))))
          ],
        )
      ]

  -- Whatever the producers and the consumer have done to a new queue, in any order of their steps, a
  -- `dequeue` does not fault; it gives the next value in the order of the exchanges, or it leaves the
  -- queue as it is, and then all values have been taken or the producer of the next one has not linked
  -- it yet. A producer that has still to link its node never links it into a deleted one.
  pub dequeue-Answer :
      (w : World d)
      → Reach d start w
      → ((q : MpscQueue A) × (out : Option A) × (dequeue w.queue ≡ some (q, out)) × Answer w q out)
        × ((p : ℕ)
            → (w.waiting p ≡ none)
              ⊎ ((node : ℕ) × (q : MpscQueue A) × (w.waiting p ≡ some node)
                  × (link p node w.queue ≡ some q)))
  dequeue-Answer w r = (dequeue_answer w r, λ p. link-waiting w p r)
