-- ===== src/Epoll/Select.antt =====
-- `EpollSelector::select` of src/net/eventloop/selectors/EpollSelector.cpp, over `epoll_wait(2)`. `K` is
-- the rest of the program; `room` is the size of the vector `events`. `none` is the failure of the
-- assertion.
use netyo.Prelude.{
  ℕ, zero, suc, ◌*◌, ◌≤◌, ◌≡◌, List, [], ◌∷◌, arith, length, if◌then◌else◌, leb, ltb, ◌==◌,
  Option-cases, ◌⊎◌, some, none, ◌>>=◌, Option, refl, inl, inr, ◌/◌,
}
use netyo.Prelude.{le→leb}
use netyo.Epoll.{Events}

-- An `epoll_event`: its pointer, unless that is null, and its flags.
abbrev pub Ready : Type 0
Ready = Option ℕ × Events

-- `EVENTS_LIST_SIZE`
abbrev pub events_list_size : ℕ
events_list_size = 16

-- The size of `events` after `num_events` of them have been handled.
unfoldable pub resized : ℕ → ℕ → ℕ
resized num_events room =
    if num_events == room then room * 2 else if ltb num_events (room / 4) then room / 4 else room

module _ {K : Type 0} (handler : ℕ → Events → K → K) where
  -- The loop over the events.
  unfoldable pub dispatch : List Ready → K → K
  dispatch [] k = k
  dispatch ((none, ev) ∷ es) k = dispatch es k
  dispatch ((some pdata, ev) ∷ es) k = dispatch es (handler pdata ev k)

  module _ (epoll_wait : ℕ → K → K × Option (List Ready)) where
    -- `select(timeout)`; `epoll_wait` is given the size of the vector, and its result is `none` where
    -- it returns -1.
    unfoldable pub select : ℕ → K → Option (ℕ × K)
    unfolding dispatch resized
    select room k =
        let (k', result) = epoll_wait room k in
        elim result [
          | none ↦ some (room, k')
          | some [] ↦ some (room, k')
          | some (e ∷ es) ↦
              if leb (length (e ∷ es)) room
              then some (resized (length (e ∷ es)) room, dispatch (e ∷ es) k')
              else none
        ]

    -- `n` selects, one after the other.
    unfoldable pub selects : ℕ → ℕ → K → Option (ℕ × K)
    selects zero room k = some (room, k)
    selects (suc n) room k = select room k >>= λ s. selects n s.0 s.1

    -- The handler has been called for events whose pointer is not null, one after the other.
    pub data Called : List Ready → K → K → Type 0 where
      no_event : {k : K} → Called [] k k
      null_event :
          {ev : Events} {es : List Ready} {k k' : K}
          → Called es k k'
          → Called ((none, ev) ∷ es) k k'
      called :
          {pdata : ℕ} {ev : Events} {es : List Ready} {k k' : K}
          → Called es (handler pdata ev k) k'
          → Called ((some pdata, ev) ∷ es) k k'

    dispatch-Called : (es : List Ready) (k : K) → Called es k (dispatch es k)
    unfolding dispatch
    dispatch-Called [] k = no_event
    dispatch-Called ((none, ev) ∷ es) k = null_event (dispatch-Called es k)
    dispatch-Called ((some pdata, ev) ∷ es) k = called (dispatch-Called es (handler pdata ev k))

    -- The vector has room, and the selector handles what `epoll_wait` gives.
    pub record Handles (room : ℕ) (k : K) : Type 0 where
      pub next_room : ℕ
      pub next_k : K
      pub selected : select room k ≡ some (next_room, next_k)
      pub has_room : 1 ≤ next_room
      pub handled :
          ((epoll_wait room k).1 ≡ none) × (next_k ≡ (epoll_wait room k).0)
          ⊎ ((es : List Ready) × ((epoll_wait room k).1 ≡ some es)
              × Called es (epoll_wait room k).0 next_k)

    module _
        (at_most : (room : ℕ) (k : K) (es : List Ready)
          → (epoll_wait room k).1 ≡ some es
          → length es ≤ room) where
      resized-room : (n room : ℕ) → 1 ≤ n → n ≤ room → 1 ≤ resized n room
      unfolding resized
      resized-room n room h le = ground (arith, h, le)

      select-Handles : (room : ℕ) (k : K) → 1 ≤ room → Handles room k
      unfolding select
      select-Handles room k h = elim (Option-cases ((epoll_wait room k).1)) [
        | inl q ↦ record {
          next_room = room;
          next_k = (epoll_wait room k).0;
          selected = rw (q, select) refl;
          has_room = h;
          handled = inl (q, refl);
        }
        | inr ([], q) ↦ record {
          next_room = room;
          next_k = (epoll_wait room k).0;
          selected = rw (q, select) refl;
          has_room = h;
          handled = inr ([], q, no_event);
        }
        | inr (e ∷ es, q) ↦
            let le : length (e ∷ es) ≤ room = at_most room k (e ∷ es) q in
            record {
              next_room = resized (length (e ∷ es)) room;
              next_k = dispatch (e ∷ es) (epoll_wait room k).0;
              selected = rw (q, select, le→leb (length (e ∷ es)) room le) refl;
              has_room = resized-room (length (e ∷ es)) room (omega arith) le;
              handled = inr (e ∷ es, q, dispatch-Called (e ∷ es) (epoll_wait room k).0);
            }
      ]

      -- If `epoll_wait` gives no more events than it has been given room for, then any number of
      -- selects on a vector that has room for an event ends without a failure and leaves room for one,
      -- and the next one leaves room too and has called the handler for all events that `epoll_wait`
      -- has given, in their order, where their pointers are not null.
      pub selects-Handles :
          (n room : ℕ) (k : K)
          → 1 ≤ room
          → (room' : ℕ) × (k' : K) × (selects n room k ≡ some (room', k'))
            × (1 ≤ room')
            × Handles room' k'
      unfolding selects
      selects-Handles zero room k h = (room, k, refl, h, select-Handles room k h)
      selects-Handles (suc n) room k h =
          let s = select-Handles room k h in
          let (room', k', d, left, more) = selects-Handles n s.next_room s.next_k s.has_room in
          (room', k', rw s.selected d, left, more)
