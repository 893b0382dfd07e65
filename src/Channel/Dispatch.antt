-- ===== src/Channel/Dispatch.antt =====
-- `handle_events` of `Channel` (src/net/eventloop/Channel.h): which callbacks run, and in what order.
use netyo.Prelude.{
  >>=-assoc, ◌≡◌, ◌∙◌, sym, List, [], ◌∷◌, ◌++◌, if◌then◌else◌, some, none, ◌>>=◌, Option, true,
  false, refl, ◌&&◌, Bool,
}
use netyo.Prelude.{◌||◌, not}
use netyo.Epoll.{Events}
use netyo.Channel.{Channel, Callbacks, is_destroyed, handle_events, call, call_if}

-- The callbacks by name.
pub data Which : Type 0 where
  close error read write : Which

-- Those that a mask asks for, in the order in which they run.
unfoldable pub asked_for : Events → List Which
asked_for ev =
    (if ev.pollhup && not ev.pollin then close ∷ [] else [])
    ++ ((if ev.pollnval || ev.pollerr then error ∷ [] else [])
        ++ ((if ev.pollin || ev.pollpri || ev.pollrdhup then read ∷ [] else [])
            ++ (if ev.pollout then write ∷ [] else [])))

module _ {S : Type 0} (get : S → Channel) (put : Channel → S → S) (cbs : Callbacks S) where
  unfoldable pub callback : Which → Option (S → Option S)
  callback close = cbs.close_cb
  callback error = cbs.error_cb
  callback read = cbs.read_cb
  callback write = cbs.write_cb

  -- Callbacks one after the other, up to a fault.
  unfoldable pub run_callbacks : List Which → S → Option S
  run_callbacks [] s = some s
  run_callbacks (w ∷ ws) s = call (callback w) s >>= λ s'. run_callbacks ws s'

  >>=-cong :
      {A : Type 0} (m : Option S) (f g : S → Option A)
      → ((s : S) → f s ≡ g s)
      → (m >>= f) ≡ (m >>= g)
  >>=-cong none f g h = refl
  >>=-cong (some s) f g h = h s

  run_callbacks-append :
      (ws xs : List Which) (s : S)
      → run_callbacks (ws ++ xs) s ≡ (run_callbacks ws s >>= λ s'. run_callbacks xs s')
  unfolding run_callbacks
  run_callbacks-append [] xs s = refl
  run_callbacks-append (w ∷ ws) xs s =
      >>=-cong (call (callback w) s) _ _ (λ s'. run_callbacks-append ws xs s')
      ∙ sym (>>=-assoc (call (callback w) s) (run_callbacks ws) (run_callbacks xs))

  >>=-some : (m : Option S) → (m >>= λ s. some s) ≡ m
  >>=-some none = refl
  >>=-some (some s) = refl

  run_one :
      (b : Bool) (w : Which) (s : S)
      → run_callbacks (if b then w ∷ [] else []) s ≡ call_if b (callback w) s
  unfolding run_callbacks
  run_one true w s = >>=-some (call (callback w) s)
  run_one false w s = refl

  -- A channel that is not destroyed when its events come runs the callbacks that the events ask for,
  -- close, error, read, write in this order, also after one of them has destroyed it, and then records
  -- the events; a channel that is destroyed runs none.
  pub handle_events_lem :
      (ev : Events) (s : S)
      → handle_events get put cbs ev s ≡ (
          if is_destroyed (get s).state
          then some s
          else (run_callbacks (asked_for ev) s >>= λ s'.
              some (put (record (get s') { prev_events = ev }) s')))
  unfolding handle_events asked_for callback
  handle_events_lem ev s = simp (run_callbacks-append, run_one, >>=-assoc)
