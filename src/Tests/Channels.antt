-- ===== src/Tests/Channels.antt =====
-- `Channel` of src/net/eventloop/Channel.h at one descriptor.
use netyo.Prelude.{◌≡◌, refl, [], ◌∷◌, none, some, true}
use netyo.Epoll.{none_set}
use netyo.Channel.{Channel, new, added, destroy, read_events, enable}
use netyo.Channel.Registration.{
  Registered, enables, disables, destroys, serve_all, serve_all-Registered,
}
use netyo.Channel.Dispatch.{asked_for, close, error, read, write}
use netyo.Tests.World.{one_epoll}

abbrev idle : Channel
idle = record { fd = 5; state = new; events = none_set; prev_events = none_set }

abbrev reading : Channel
reading = record { fd = 5; state = added; events = read_events; prev_events = none_set }

enable-idle : enable one_epoll read_events idle none ≡ (reading, some read_events)
unfolding enable
enable-idle = refl

serve_all-Registered_example :
    let p =
      serve_all one_epoll
        (enables read_events ∷ disables read_events ∷ destroys ∷ [])
        (idle, none) in
    Registered one_epoll p.0 p.1
serve_all-Registered_example =
    serve_all-Registered one_epoll (λ k fd op. refl)
      (enables read_events ∷ disables read_events ∷ destroys ∷ []) idle none refl

-- The end of a channel that is not watched adds it.
destroy-idle : (destroy one_epoll idle none).1 ≡ some none_set
unfolding destroy
destroy-idle = refl

asked_for-all :
    asked_for (record none_set { pollhup = true; pollerr = true; pollrdhup = true; pollout = true })
    ≡ close ∷ error ∷ read ∷ write ∷ []
unfolding asked_for
asked_for-all = refl
