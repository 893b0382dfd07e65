-- ===== src/Buffer/Resend.antt =====
-- `drain_wbuffer` of `Buffer` (src/net/Buffer.h) after a failure of its second write.
use netyo.Prelude.{ℕ, ◌-◌, ◌≡◌, ◌∙◌, ◌++◌, take, append_assoc, some, none, refl, subst, ◌≢◌}
use netyo.Ring.{Ring, vsize, size, contents}
use netyo.Ring.Entries.{IsValid}
use netyo.Posix.{Socket}
use netyo.Buffer.{Drained, drain_wbuffer}
use netyo.Buffer.Drain.{Outcome, progress, refused, cut_short, drain_wbuffer-Outcome}

module _ (c : Socket) where
  open c use {State, sent}

  -- What a call that has come to `out` has done.
  call-Outcome :
      (k : State) (r : Ring ℕ) (out : Drained c)
      → IsValid r
      → drain_wbuffer c k r ≡ some out
      → Outcome c k r out
  call-Outcome k r out v e =
      let (o, d, h) = drain_wbuffer-Outcome c k r v in
      let same : o ≡ out = cc in subst (Outcome c k r) same h

  failed :
      (k : State) (r : Ring ℕ) (out : Drained c)
      → Outcome c k r out
      → out.2 ≡ none
      → sent out.0 ≢ sent k
      → (out.1 ≡ r) × (sent out.0 ≡ sent k ++ take (vsize r - r.lo) (contents 0 r))
  failed k r out (progress m e _ _ _ _ _) f n = cc
  failed k r out (refused e p q) f n = absurd (n q)
  failed k r out (cut_short e p w q) f n = (p, q)

  done :
      (k : State) (r : Ring ℕ) (out : Drained c) (m : ℕ)
      → Outcome c k r out
      → out.2 ≡ some m
      → sent out.0 ≡ sent k ++ take (size r - m) (contents 0 r)
  done k r out m (progress n e _ _ _ s _) f = let same : n ≡ m = cc in rw (← same) s
  done k r out m (refused e _ _) f = cc
  done k r out m (cut_short e _ _ _) f = cc

  -- A call that returns a negative number after it has sent something has sent what lies before the
  -- end of the vector and kept it in the buffer: the next call that succeeds, returning `m`, sends it
  -- again, before the rest of what it sends.
  pub drain_wbuffer-resend :
      (k k1 k2 : State) (r r1 r2 : Ring ℕ) (m : ℕ)
      → IsValid r
      → drain_wbuffer c k r ≡ some (k1, r1, none)
      → sent k1 ≢ sent k
      → drain_wbuffer c k1 r1 ≡ some (k2, r2, some m)
      → sent k2
        ≡ sent k ++ (take (vsize r - r.lo) (contents 0 r) ++ take (size r - m) (contents 0 r))
  drain_wbuffer-resend k k1 k2 r r1 r2 m v d n e =
      let (p, q) = failed k r (k1, r1, none) (call-Outcome k r _ v d) refl n in
      let again : drain_wbuffer c k1 r ≡ some (k2, r2, some m) = rw p at e in
      done k1 r (k2, r2, some m) m (call-Outcome k1 r _ v again) refl
      ∙ rw q (append_assoc (sent k) _ _)
