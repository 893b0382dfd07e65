-- ===== src/Channel/Registration.antt =====
-- The registration of a `Channel` (src/net/eventloop/Channel.h) with epoll.
use netyo.Prelude.{
  false, true, Bool, ◌&&◌, not, ◌⊎◌, ℕ, ◌≡◌, List, [], ◌∷◌, some, none, refl, Bool-cases, inl, inr,
  subst, ◌∙◌,
}
use netyo.Epoll.{Op, ctl_add, ctl_del, ctl_mod, Events, Epoll, any, union, without}
use netyo.Channel.{
  States, new, added, deleted, destroyed, Channel, notify, notify_in, enable, disable,
  update_events, same_events, destroy, remove, disable_all, is_destroyed, read_events, write_events,
}

module _ (e : Epoll) where
  open e use {State, interest, add_new, mod_known, del_known}

  -- Epoll does not watch a descriptor for reading or writing.
  abbrev pub IsQuiet : ℕ → State → Type 0
  IsQuiet fd k =
      (interest k fd ≡ none)
      ⊎ ((ev : Events) × (interest k fd ≡ some ev)
          × (without ev (union read_events write_events) ≡ ev))

  -- What epoll watches is what the channel says.
  abbrev pub Agrees : States → Channel → State → Type 0
  Agrees added c k = interest k c.fd ≡ some c.events
  Agrees new c k = interest k c.fd ≡ none
  Agrees deleted c k = interest k c.fd ≡ none
  Agrees destroyed c k = IsQuiet c.fd k

  abbrev pub Registered : Channel → State → Type 0
  Registered c k = Agrees c.state c k

  -- What `notify` relies on: epoll watches the descriptor just when the state says so.
  abbrev Known : States → ℕ → State → Type 0
  Known added fd k = (old : Events) × (interest k fd ≡ some old)
  Known new fd k = interest k fd ≡ none
  Known deleted fd k = interest k fd ≡ none
  Known destroyed fd k = IsQuiet fd k

  Agrees-Known : (s : States) (c : Channel) (k : State) → Agrees s c k → Known s c.fd k
  Agrees-Known added c k h = (c.events, h)
  Agrees-Known new c k h = h
  Agrees-Known deleted c k h = h
  Agrees-Known destroyed c k h = h

  -- The calls that a client of a channel makes.
  pub data Request : Type 0 where
    enables disables updates : Events → Request
    removes destroys : Request

  pub serve : Request → Channel × State → Channel × State
  serve (enables evs) (c, k) = enable e evs c k
  serve (disables evs) (c, k) = disable e evs c k
  serve (updates evs) (c, k) = update_events e evs c k
  serve removes (c, k) = remove e c k
  serve destroys (c, k) = destroy e c k

  pub serve_all : List Request → Channel × State → Channel × State
  serve_all [] p = p
  serve_all (r ∷ rs) p = serve_all rs (serve r p)

  -- No call of `epoll_ctl` fails for want of memory or of watches.
  abbrev pub HasRoom : Type 0
  HasRoom = (k : State) (fd : ℕ) (op : Op) → e.exhausted k fd op ≡ false

  and_twice : (a b : Bool) → (a && not b && not b) ≡ (a && not b)
  and_twice true true = refl
  and_twice true false = refl
  and_twice false b = refl

  without_twice : (a b : Events) → without (without a b) b ≡ without a b
  without_twice a b = λ i. record {
    pollin = and_twice a.pollin b.pollin i;
    pollpri = and_twice a.pollpri b.pollpri i;
    pollout = and_twice a.pollout b.pollout i;
    pollerr = and_twice a.pollerr b.pollerr i;
    pollhup = and_twice a.pollhup b.pollhup i;
    pollnval = and_twice a.pollnval b.pollnval i;
    pollrdhup = and_twice a.pollrdhup b.pollrdhup i;
  }

  -- A channel that epoll does not watch, and whose addition fails for want of memory or of watches, is
  -- `ADDED` after `notify`, and epoll does not watch it.
  notify-exhausted :
      (c : Channel) (k : State)
      → (c.state ≡ new) ⊎ (c.state ≡ deleted)
      → interest k c.fd ≡ none
      → e.exhausted k c.fd (ctl_add c.events) ≡ true
      → ((notify e c k).0.state ≡ added) × (interest (notify e c k).1 c.fd ≡ none)
  unfolding notify notify_in
  notify-exhausted c k (inl q) h x = rw q (refl, e.ctl_exhausted k c.fd (ctl_add c.events) x ∙ h)
  notify-exhausted c k (inr q) h x = rw q (refl, e.ctl_exhausted k c.fd (ctl_add c.events) x ∙ h)

  module _ (room : HasRoom) where
    notify_in-Registered :
        (s : States) (c : Channel) (k : State)
        → s ≡ c.state
        → Known s c.fd k
        → Registered (notify_in e s c k).0 (notify_in e s c k).1
    unfolding notify_in
    notify_in-Registered new c k eq h = add_new k c.fd c.events (room k c.fd (ctl_add c.events)) h
    notify_in-Registered deleted c k eq h =
        add_new k c.fd c.events (room k c.fd (ctl_add c.events)) h
    notify_in-Registered destroyed c k eq h = subst (λ s. Agrees s c k) eq h
    notify_in-Registered added c k eq (old, h) = elim (Bool-cases (any c.events)) [
      | inl p ↦ rw p (
          subst (λ s. Agrees s c (e.ctl k c.fd (ctl_mod c.events))) eq
            (mod_known k c.fd old c.events (room k c.fd (ctl_mod c.events)) h))
      | inr p ↦ rw p (del_known k c.fd old (room k c.fd ctl_del) h)
    ]

    notify-Registered :
        (c : Channel) (k : State) (evs : Events)
        → Registered c k
        → let (c', k') = notify e (record c { events = evs }) k in Registered c' k'
    unfolding notify
    notify-Registered c k evs h =
        notify_in-Registered c.state (record c { events = evs }) k refl (Agrees-Known c.state c k h)

    remove-Registered :
        (c : Channel) (k : State) → Registered c k → Registered (remove e c k).0 (remove e c k).1
    unfolding remove disable_all disable
    remove-Registered c k h = notify-Registered c k _ h

    -- What `remove` leaves of a channel that is not destroyed.
    cleared-IsQuiet :
        (s : States) (c : Channel) (k : State)
        → is_destroyed s ≡ false
        → Known s c.fd k
        → without c.events (union read_events write_events) ≡ c.events
        → IsQuiet (notify_in e s c k).0.fd (notify_in e s c k).1
    unfolding notify_in
    cleared-IsQuiet new c k q h quiet =
        inr (c.events, add_new k c.fd c.events (room k c.fd (ctl_add c.events)) h, quiet)
    cleared-IsQuiet deleted c k q h quiet =
        inr (c.events, add_new k c.fd c.events (room k c.fd (ctl_add c.events)) h, quiet)
    cleared-IsQuiet destroyed c k q h quiet = h
    cleared-IsQuiet added c k q (old, h) quiet = elim (Bool-cases (any c.events)) [
      | inl p ↦
          rw p (
            inr (c.events, mod_known k c.fd old c.events (room k c.fd (ctl_mod c.events)) h, quiet))
      | inr p ↦ rw p (inl (del_known k c.fd old (room k c.fd ctl_del) h))
    ]

    remove-IsQuiet :
        (c : Channel) (k : State)
        → is_destroyed c.state ≡ false
        → Registered c k
        → IsQuiet (remove e c k).0.fd (remove e c k).1
    unfolding remove disable_all disable notify
    remove-IsQuiet c k q h =
        let rw_events : Events = union read_events write_events in
        cleared-IsQuiet c.state (record c { events = without c.events rw_events }) k q
          (Agrees-Known c.state c k h) (without_twice c.events rw_events)

    serve-Registered :
        (r : Request) (c : Channel) (k : State)
        → Registered c k
        → Registered (serve r (c, k)).0 (serve r (c, k)).1
    unfolding serve
    serve-Registered (enables evs) c k h =
        unfold enable in (notify-Registered c k (union c.events evs) h)
    serve-Registered (disables evs) c k h =
        unfold disable in (notify-Registered c k (without c.events evs) h)
    serve-Registered (updates evs) c k h = elim (Bool-cases (same_events c.events evs)) [
      | inl p ↦ unfold update_events in (rw p h)
      | inr p ↦ unfold update_events in (rw p (notify-Registered c k evs h))
    ]
    serve-Registered removes c k h = remove-Registered c k h
    serve-Registered destroys c k h = elim (Bool-cases (is_destroyed c.state)) [
      | inl p ↦ unfold destroy in (rw p h)
      | inr p ↦ unfold destroy in (rw p (remove-IsQuiet c k p h))
    ]

    -- Where no call of `epoll_ctl` fails for want of memory or of watches: if epoll watches a
    -- channel's descriptor for just the events of the channel while its state is `ADDED`, does not
    -- watch it while the state is `NEW` or `DELETED`, and does not watch it for reading or writing
    -- while the state is `DESTROYED`, then so it is after any sequence of calls on the channel,
    -- `destroy` included.
    pub serve_all-Registered :
        (rs : List Request) (c : Channel) (k : State)
        → Registered c k
        → Registered (serve_all rs (c, k)).0 (serve_all rs (c, k)).1
    unfolding serve_all
    serve_all-Registered [] c k h = h
    serve_all-Registered (r ∷ rs) c k h =
        let (c', k') = serve r (c, k) in serve_all-Registered rs c' k' (serve-Registered r c k h)
