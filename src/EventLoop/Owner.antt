-- ===== src/EventLoop/Owner.antt =====
-- The thread-local pointer of src/net/eventloop/ThreadingEventLoop.cpp to the loop of a thread, as the
-- constructor and the destructor of `EventLoop` use it. Threads are numbers, and loops are numbered as
-- they are made.
use netyo.Prelude.{
  ℕ, ◌+◌, ◌<◌, ◌≡◌, ◌≢◌, ◌==◌, ℕ_discrete, List, [], ◌∷◌, Option, some, none, ◌>>=◌, if◌then◌else◌,
  ◌⊎◌, inl, inr, refl, arith, Option-cases, Bool, false, subst, sym,
}

-- `thread_loop_ptr` of each thread; `belonging_thread` of the loops that exist; how many were made.
pub record Process : Type 0 where
  pub thread_loop_ptr : ℕ → Option ℕ
  pub belonging_thread : ℕ → Option ℕ
  pub num_loops : ℕ

abbrev pub points_to : ℕ → Option ℕ → Bool
points_to l none = false
points_to l (some m) = m == l

-- `EventLoop(name)` in a thread; `none` is its `exit(-1)`.
abbrev pub created : ℕ → Process → Process
created t p = record {
  thread_loop_ptr = λ k. if k == t then some p.num_loops else p.thread_loop_ptr k;
  belonging_thread = λ l. if l == p.num_loops then some t else p.belonging_thread l;
  num_loops = p.num_loops + 1;
}

unfoldable pub create : ℕ → Process → Option Process
create t p = elim (p.thread_loop_ptr t) [ some m ↦ none | none ↦ some (created t p) ]

-- `~EventLoop()` of a loop in a thread.
unfoldable pub delete : ℕ → ℕ → Process → Process
delete t self p = record p {
  thread_loop_ptr = λ k.
      if k == t
      then if points_to self (p.thread_loop_ptr t) then none else p.thread_loop_ptr t
      else p.thread_loop_ptr k;
  belonging_thread = λ l. if l == self then none else p.belonging_thread l;
}

pub data Event : Type 0 where
  creates : ℕ → Event
  deletes : ℕ → ℕ → Event

unfoldable pub serve : Event → Process → Option Process
unfolding create delete
serve (creates t) p = create t p
serve (deletes t l) p = some (delete t l p)

unfoldable pub serve_all : List Event → Process → Option Process
unfolding serve
serve_all [] p = some p
serve_all (ev ∷ evs) p = serve ev p >>= serve_all evs

abbrev pub at_first : Process
at_first = record { thread_loop_ptr = λ t. none; belonging_thread = λ l. none; num_loops = 0 }

-- A loop has been deleted in another thread than `t`, by one of some events.
abbrev pub DeletedElsewhere : ℕ → ℕ → List Event → Type 0
DeletedElsewhere t l [] = ⊥
DeletedElsewhere t l (creates u ∷ evs) = DeletedElsewhere t l evs
DeletedElsewhere t l (deletes u m ∷ evs) = ((t ≢ u) × (l ≡ m)) ⊎ DeletedElsewhere t l evs

-- The thread of every loop points to it; what a thread points to is a loop of its own, or has been
-- deleted elsewhere.
pub record IsOwned (elsewhere : ℕ → ℕ → Type 0) (p : Process) : Type 0 where
  pub owned : (l t : ℕ) → p.belonging_thread l ≡ some t → p.thread_loop_ptr t ≡ some l
  pub pointed :
      (t l : ℕ)
      → p.thread_loop_ptr t ≡ some l
      → (p.belonging_thread l ≡ some t) ⊎ ((p.belonging_thread l ≡ none) × elsewhere t l)
  pub made : (t l : ℕ) → p.thread_loop_ptr t ≡ some l → l < p.num_loops

created-IsOwned :
    (d : ℕ → ℕ → Type 0) (t : ℕ) (p : Process)
    → IsOwned d p
    → p.thread_loop_ptr t ≡ none
    → IsOwned d (created t p)
created-IsOwned d t p h z = record {
  owned = λ l k b. elim (ℕ_discrete l p.num_loops) [
    | yes e ↦ ground (arith, e, b)
    | no n ↦ let old = h.owned l k (ground (arith, n, b)) in ground (arith, old, z)
  ];
  pointed = λ k l b. elim (ℕ_discrete k t) [
    | yes e ↦ inl (ground (arith, e, b))
    | no n ↦
        let old : p.thread_loop_ptr k ≡ some l = ground (arith, n, b) in
        let same : (created t p).belonging_thread l ≡ p.belonging_thread l =
          ground (arith, h.made k l old) in
        subst (λ o. (o ≡ some k) ⊎ ((o ≡ none) × d k l)) (sym same) (h.pointed k l old)
  ];
  made = λ k l b. elim (ℕ_discrete k t) [
    | yes e ↦ ground (arith, e, b)
    | no n ↦
        let old : p.thread_loop_ptr k ≡ some l = ground (arith, n, b) in
        omega (arith, h.made k l old)
  ];
}

-- What a thread points to after the end of a loop.
delete-pointed :
    (t m k l : ℕ) (p : Process)
    → (delete t m p).thread_loop_ptr k ≡ some l
    → (p.thread_loop_ptr k ≡ some l) × ((l ≢ m) ⊎ ((k ≢ t) × (l ≡ m)))
unfolding delete
delete-pointed t m k l p b = elim (ℕ_discrete k t) [
  | yes e ↦ elim (Option-cases (p.thread_loop_ptr t)) [
    | inl z ↦ absurd (ground (arith, e, b, z))
    | inr (x, z) ↦ ground (arith, e, b, z)
  ]
  | no n ↦
      let old : p.thread_loop_ptr k ≡ some l = ground (arith, n, b) in
      elim (ℕ_discrete l m) [ yes e ↦ (old, inr (n, e)) | no u ↦ (old, inl u) ]
]

delete-IsOwned :
    (d : ℕ → ℕ → Type 0) (t m : ℕ) (p : Process)
    → IsOwned d p
    → ((k : ℕ) → k ≢ t → d k m)
    → IsOwned d (delete t m p)
delete-IsOwned d t m p h w = record {
  owned =
      unfold delete in
      λ l k b. elim (ℕ_discrete l m) [
        | yes e ↦ absurd (ground (arith, e, b))
        | no n ↦ let old = h.owned l k (ground (arith, n, b)) in ground (arith, old, n)
      ];
  pointed =
      unfold delete in
      λ k l b.
        let (old, why) = delete-pointed t m k l p b in
        elim why [
          | inl n ↦
              let same : (delete t m p).belonging_thread l ≡ p.belonging_thread l =
                ground (arith, n) in
              subst (λ o. (o ≡ some k) ⊎ ((o ≡ none) × d k l)) (sym same) (h.pointed k l old)
          | inr (n, e) ↦ inr (ground (arith, e), subst (d k) (sym e) (w k n))
        ];
  made = λ k l b. unfold delete in h.made k l (delete-pointed t m k l p b).0;
}

create-free : (t : ℕ) (p : Process) → p.thread_loop_ptr t ≡ none → create t p ≡ some (created t p)
unfolding create
create-free t p z = rw (create, z) refl

create-taken : (t l : ℕ) (p : Process) → p.thread_loop_ptr t ≡ some l → create t p ≡ none
unfolding create
create-taken t l p z = rw (create, z) refl

serve_all-IsOwned :
    (d : ℕ → ℕ → Type 0) (evs : List Event) (p q : Process)
    → IsOwned d p
    → ((t l : ℕ) → DeletedElsewhere t l evs → d t l)
    → serve_all evs p ≡ some q
    → IsOwned d q
unfolding serve_all
serve_all-IsOwned d [] p q h w e = let same : p ≡ q = cc in subst (IsOwned d) same h
serve_all-IsOwned d (creates t ∷ evs) p q h w e = elim (Option-cases (p.thread_loop_ptr t)) [
  | inr (m, z) ↦ absurd (ground (arith, create-taken t m p z, e))
  | inl z ↦
      serve_all-IsOwned d evs (created t p) q (created-IsOwned d t p h z) w
        (rw (create-free t p z) at e)
]
serve_all-IsOwned d (deletes t m ∷ evs) p q h w e =
    serve_all-IsOwned d evs (delete t m p) q
      (delete-IsOwned d t m p h (λ k n. w k m (inl (n, refl)))) (λ k l x. w k l (inr x)) e

-- The loops of a thread, and whether it can make one.
abbrev pub HasOne : ℕ → Process → Type 0
HasOne t p =
    (l : ℕ) × (p.belonging_thread l ≡ some t)
    × ((m : ℕ) → (m ≡ l) ⊎ (p.belonging_thread m ≢ some t))
    × (create t p ≡ none)

abbrev pub HasNone : ℕ → List Event → Process → Type 0
HasNone t evs p =
    ((m : ℕ) → p.belonging_thread m ≢ some t)
    × ((create t p ≡ some (created t p))
        ⊎ ((l : ℕ) × (p.thread_loop_ptr t ≡ some l)
            × DeletedElsewhere t l evs
            × (create t p ≡ none)))

-- After any sequence of constructions and destructions of loops in any threads that has not ended in
-- `exit(-1)`: a thread has one loop, and making another exits; or it has none, and can make one, unless
-- it still points to a loop that another thread has deleted, when it exits too.
pub serve_all-HasOne :
    (evs : List Event) (p : Process) (t : ℕ)
    → serve_all evs at_first ≡ some p
    → HasOne t p ⊎ HasNone t evs p
serve_all-HasOne evs p t e =
    let h : IsOwned (λ k l. DeletedElsewhere k l evs) p =
      serve_all-IsOwned (λ k l. DeletedElsewhere k l evs) evs at_first p
        (record {
          owned = λ l k b. absurd (ground (arith, b));
          pointed = λ k l b. absurd (ground (arith, b));
          made = λ k l b. absurd (ground (arith, b));
        })
        (λ k l x. x) e in
    elim (Option-cases (p.thread_loop_ptr t)) [
      | inl z ↦ inr (λ m b. ground (arith, h.owned m t b, z), inl (create-free t p z))
      | inr (l, z) ↦ elim (h.pointed t l z) [
        | inl b ↦ inl (
          l,
          b,
          (λ m. elim (ℕ_discrete m l) [
            | yes k ↦ inl k
            | no n ↦ inr λ b'. let own = h.owned m t b' in n cc
          ]),
          create-taken t l p z,
        )
        | inr (b, x) ↦
            inr (
              λ m b'. ground (arith, b, b', h.owned m t b', z),
              inr (l, z, x, create-taken t l p z),
            )
      ]
    ]
