-- ===== src/Channel/Destroy.antt =====
-- What `destroy` of `Channel` (src/net/eventloop/Channel.h) leaves behind in epoll.
use netyo.Prelude.{ap, Option, ◌≡◌, sym, arith, ◌⊎◌, some, none, false, refl, inl, inr, subst}
use netyo.Epoll.{Events, Epoll, any, union, without, none_set, ctl_add, ctl_del}
use netyo.Channel.{
  States, new, added, deleted, destroyed, Channel, notify, notify_in, disable, destroy, remove,
  disable_all, is_destroyed, read_events, write_events,
}
use netyo.Channel.Registration.{Registered, Agrees, HasRoom}

-- A mask of the flags in `READ` and `WRITE` alone, as the code uses them.
record IsPlain (ev : Events) : Type 0 where
  no_err : ev.pollerr ≡ false
  no_hup : ev.pollhup ≡ false
  no_nval : ev.pollnval ≡ false
  no_rdhup : ev.pollrdhup ≡ false

plain-cleared : (ev : Events) → IsPlain ev → without ev (union read_events write_events) ≡ none_set
plain-cleared ev p = ground arith

module _ (e : Epoll) (room : HasRoom e) where
  open e use {State, interest, add_new, del_known}

  destroy_in :
      (s : States) (c : Channel) (k : State)
      → s ≡ c.state
      → is_destroyed s ≡ false
      → destroy e c k ≡ (
        record (notify_in e s
            (record c { events = without c.events (union read_events write_events) })
            k).0 { state = destroyed },
        (notify_in e s
            (record c { events = without c.events (union read_events write_events) })
            k).1,
      )
  unfolding destroy remove disable_all disable notify
  destroy_in s c k q h = rw (← q, h)

  -- Without such a failure, a channel of plain events that epoll watches is no longer watched once it
  -- is destroyed.
  destroy-added :
      (c : Channel) (k : State)
      → IsPlain c.events
      → c.state ≡ added
      → Registered e c k
      → ((destroy e c k).0.state ≡ destroyed) × (interest (destroy e c k).1 c.fd ≡ none)
  unfolding notify_in
  destroy-added c k p q r =
      let watched : interest k c.fd ≡ some c.events = subst (λ s. Agrees e s c k) q r in
      let quiet : any (without c.events (union read_events write_events)) ≡ false = ground arith in
      rw (destroy_in added c k (sym q) refl, quiet)
        (refl, del_known k c.fd c.events (room k c.fd ctl_del) watched)

  -- Without such a failure, a channel of plain events that epoll does not watch is watched after it is
  -- destroyed, for no event.
  destroy-unwatched :
      (c : Channel) (k : State)
      → IsPlain c.events
      → (c.state ≡ new) ⊎ (c.state ≡ deleted)
      → Registered e c k
      → ((destroy e c k).0.state ≡ destroyed) × (interest (destroy e c k).1 c.fd ≡ some none_set)
  unfolding notify_in
  destroy-unwatched c k p (inl q) r =
      rw (destroy_in new c k (sym q) refl, plain-cleared c.events p)
        (
          refl,
          add_new k c.fd none_set (room k c.fd (ctl_add none_set))
              (subst (λ s. Agrees e s c k) q r),
        )
  destroy-unwatched c k p (inr q) r =
      rw (destroy_in deleted c k (sym q) refl, plain-cleared c.events p)
        (
          refl,
          add_new k c.fd none_set (room k c.fd (ctl_add none_set))
              (subst (λ s. Agrees e s c k) q r),
        )

  -- What epoll watches the descriptor for after `destroy`, by the state before it.
  abbrev left_watched : States → Option Events
  left_watched added = none
  left_watched new = some none_set
  left_watched deleted = some none_set
  left_watched destroyed = none

  -- Where no call of `epoll_ctl` fails for want of memory or of watches: of a channel of plain events
  -- that is not destroyed yet and whose registration is as its state says, epoll does not watch the
  -- descriptor after `destroy` if it did before, and watches it, for no event, if it did not.
  destroy-interest :
      (c : Channel) (k : State)
      → IsPlain c.events
      → (c.state ≡ added) ⊎ ((c.state ≡ new) ⊎ (c.state ≡ deleted))
      → Registered e c k
      → ((destroy e c k).0.state ≡ destroyed)
        × (interest (destroy e c k).1 c.fd ≡ left_watched c.state)
  destroy-interest c k p (inl q) r = rw (ap left_watched q) (destroy-added c k p q r)
  destroy-interest c k p (inr (inl q)) r =
      rw (ap left_watched q) (destroy-unwatched c k p (inl q) r)
  destroy-interest c k p (inr (inr q)) r =
      rw (ap left_watched q) (destroy-unwatched c k p (inr q) r)
