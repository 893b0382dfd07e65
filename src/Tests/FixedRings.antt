-- ===== src/Tests/FixedRings.antt =====
-- `FixedRingBuffer` of src/net/Buffer.h on small rings.
use netyo.Prelude.{◌⊎◌, ◌≢◌, ℕ, ◌≡◌, [], ◌∷◌, arith, some, none}
use netyo.Ring.{Ring, contents}
use netyo.Ring.Entries.{IsValid}
use netyo.FixedRing.{pop_front, pop_back, push_back}
use netyo.FixedRing.Window.{Leaves, operations-Leaves}
use netyo.FixedRing.Holes.{pop_back-outcome}

-- A full ring of the entries 1, 2 and 3, round the end of its vector.
abbrev full_ring : Ring ℕ
full_ring = record { vec = 2 ∷ 3 ∷ 0 ∷ 1 ∷ []; lo = 3; hi = 2 }

full_ring-IsValid : IsValid full_ring
full_ring-IsValid = omega arith

operations-Leaves_example :
    Leaves 0 full_ring (push_back 0 full_ring 4) (2 ∷ 3 ∷ 4 ∷ [])
    × Leaves 0 full_ring (pop_front 0 full_ring) (2 ∷ 3 ∷ [])
unfolding contents
operations-Leaves_example = operations-Leaves 0 full_ring 4 full_ring-IsValid

pop_back-outcome_example :
    ((full_ring.hi ≡ 1) × (pop_back 0 full_ring ≡ none))
    ⊎ ((full_ring.hi ≢ 1)
        × ((g : Ring ℕ) × (pop_back 0 full_ring ≡ some g)
            × IsValid g
            × (contents 0 g ≡ 1 ∷ 0 ∷ [])))
unfolding contents
pop_back-outcome_example = pop_back-outcome 0 full_ring full_ring-IsValid (omega arith)
