-- ===== src/Tests/Rings.antt =====
-- `RingBuffer` of src/net/Buffer.h at small buffers.
use netyo.Prelude.{
  ◌⊎◌, true, false, ◌≤◌, ◌<◌, ◌+◌, ◌>>=◌, ℕ, ◌≡◌, refl, arith, [], ◌∷◌, ◌++◌, none, some, drop,
}
use netyo.Ring.{
  Ring, vsize, contents, full, reserve, grow, push_back, pop_front, pop_back, at, mod_index,
  write_at,
}
use netyo.Ring.Entries.{IsValid}
use netyo.Ring.Pop.{pops-contents}
use netyo.Ring.Iterator.{begin, end, reader, writer, store, increment}
use netyo.Ring.Traverse.{pass, pass-contents}
use netyo.Ring.Wrapped.{reserve-wrapped}
use netyo.Ring.Loss.{pushes-contents}

-- 2, 3 and 4 in one piece.
abbrev flat : Ring ℕ
flat = record { vec = 1 ∷ 2 ∷ 3 ∷ 4 ∷ 5 ∷ 6 ∷ 7 ∷ []; lo = 1; hi = 4 }

-- 6, 7, then 1 and 2 round the end.
abbrev turned : Ring ℕ
turned = record { vec = 1 ∷ 2 ∷ 3 ∷ 4 ∷ 5 ∷ 6 ∷ 7 ∷ []; lo = 5; hi = 2 }

-- 4, 5, 6, 7, 1, 2: full, and round the end.
abbrev turned_full : Ring ℕ
turned_full = record { vec = 1 ∷ 2 ∷ 3 ∷ 4 ∷ 5 ∷ 6 ∷ 7 ∷ []; lo = 3; hi = 2 }

-- 7, then 1 to 5, round the end.
abbrev tight : Ring ℕ
tight = record { vec = 1 ∷ 2 ∷ 3 ∷ 4 ∷ 5 ∷ 6 ∷ 7 ∷ []; lo = 6; hi = 5 }

contents-turned : contents 0 turned ≡ 6 ∷ 7 ∷ 1 ∷ 2 ∷ []
unfolding contents
contents-turned = refl

push_back-turned :
    push_back 0 turned 9 ≡ some (record { vec = 1 ∷ 2 ∷ 9 ∷ 4 ∷ 5 ∷ 6 ∷ 7 ∷ []; lo = 5; hi = 3 })
unfolding push_back grow full write_at mod_index
push_back-turned = refl

turned-IsValid : IsValid turned
turned-IsValid = omega arith

pops-contents_example :
    (contents 0 (pop_front turned) ≡ 7 ∷ 1 ∷ 2 ∷ [])
    × (contents 0 (pop_back turned) ≡ 6 ∷ 7 ∷ 1 ∷ [])
    × IsValid (pop_front turned)
    × IsValid (pop_back turned)
    × ((4 ≤ 2) ⊎ (at 0 turned 2 ≡ some 1))
unfolding contents
pops-contents_example = pops-contents 0 turned 2 turned-IsValid

pass-contents_example :
    (pass 0 5 turned (begin turned) (end turned) ≡ some (6 ∷ 7 ∷ 1 ∷ 2 ∷ [], turned))
    × (pass 0 5 turned reader.0 reader.1 ≡ some (6 ∷ 7 ∷ 1 ∷ 2 ∷ [], record turned { lo = 2 }))
    × (pass 0 5 (record turned { lo = 2 }) reader.0 reader.1 ≡ some ([], record turned { lo = 2 }))
    × ((store 0 turned writer.0 9 >>= λ g. some (increment g writer.0).0) ≡ push_back 0 turned 9)
unfolding contents
pass-contents_example = pass-contents 0 turned 9 turned-IsValid

reserve-wrapped_example :
    ((turned.lo + turned.hi ≤ 8)
      × ((g : Ring ℕ) × (reserve 0 turned 8 ≡ some g)
          × IsValid g
          × (vsize g ≡ 9)
          × (contents 0 g ≡ drop 2 (contents 0 turned))))
    ⊎ ((turned.lo + turned.hi ≡ 9)
        × ((g : Ring ℕ) × (reserve 0 turned 8 ≡ some g) × (vsize g ≡ 9) × (g.hi ≡ vsize g)))
    ⊎ ((9 < turned.lo + turned.hi) × (reserve 0 turned 8 ≡ none))
reserve-wrapped_example = reserve-wrapped 0 turned 8 turned-IsValid (omega arith) (omega arith)

pushes-contents_example :
    (((full turned_full ≡ false) ⊎ (turned_full.lo ≤ turned_full.hi))
      × ((g : Ring ℕ) × (push_back 0 turned_full 9 ≡ some g)
          × IsValid g
          × (contents 0 g ≡ contents 0 turned_full ++ 9 ∷ [])))
    ⊎ ((full turned_full ≡ true)
        × (turned_full.hi < turned_full.lo)
        × ((g : Ring ℕ) × (push_back 0 turned_full 9 ≡ some g)
            × (contents 0 g ≡ drop 4 (contents 0 turned_full) ++ 9 ∷ [])))
pushes-contents_example = pushes-contents 0 turned_full 9 (omega arith)
