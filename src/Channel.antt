-- ===== src/Channel.antt =====
-- The class `Channel` of src/net/eventloop/Channel.h: a descriptor, the events it is to be watched for
-- and its registration with the selector. An operation takes and returns the selector's state too.
pub mod Registration
pub mod Destroy
pub mod Dispatch
use netyo.Prelude.{ℕ, Bool, true, false, ◌||◌, ◌&&◌, not, Option, none, some, ◌>>=◌, if◌then◌else◌}
use netyo.Epoll.{
  Events, Epoll, union, without, any, none_set, selector_add, selector_modify, selector_remove,
}

pub data States : Type 0 where
  new added deleted destroyed : States

pub record Channel : Type 0 where
  pub fd : ℕ
  pub state : States
  pub events : Events
  pub prev_events : Events

abbrev pub read_events : Events
read_events = record none_set { pollin = true; pollpri = true }

abbrev pub write_events : Events
write_events = record none_set { pollout = true }

-- `Channel(fd, …)`
unfoldable pub new_channel : ℕ → Channel
new_channel fd = record { fd = fd; state = new; events = none_set; prev_events = none_set }

abbrev pub is_writing : Channel → Bool
is_writing c = c.events.pollout

abbrev pub is_reading : Channel → Bool
is_reading c = c.events.pollin || c.events.pollpri

abbrev pub is_destroyed : States → Bool
is_destroyed destroyed = true
is_destroyed new = false
is_destroyed added = false
is_destroyed deleted = false

-- Whether two masks differ.
abbrev same_flag : Bool → Bool → Bool
same_flag true b = b
same_flag false b = not b

abbrev pub same_events : Events → Events → Bool
same_events a b =
    same_flag a.pollin b.pollin
    && same_flag a.pollpri b.pollpri
    && same_flag a.pollout b.pollout
    && same_flag a.pollerr b.pollerr
    && same_flag a.pollhup b.pollhup
    && same_flag a.pollnval b.pollnval
    && same_flag a.pollrdhup b.pollrdhup

module _ (e : Epoll) where
  open e use {State}

  -- `notify`, by the state of the channel.
  unfoldable pub notify_in : States → Channel → State → Channel × State
  unfolding selector_add selector_modify selector_remove
  notify_in destroyed c k = (c, k)
  notify_in new c k = (record c { state = added }, selector_add e c.fd c.events k)
  notify_in deleted c k = (record c { state = added }, selector_add e c.fd c.events k)
  notify_in added c k =
      if any c.events
      then (c, selector_modify e c.fd c.events k)
      else (record c { state = deleted }, selector_remove e c.fd k)

  unfoldable pub notify : Channel → State → Channel × State
  unfolding notify_in
  notify c k = notify_in c.state c k

  unfoldable pub enable : Events → Channel → State → Channel × State
  unfolding notify
  enable evs c k = notify (record c { events = union c.events evs }) k

  unfoldable pub disable : Events → Channel → State → Channel × State
  unfolding notify
  disable evs c k = notify (record c { events = without c.events evs }) k

  unfoldable pub enable_all : Channel → State → Channel × State
  unfolding enable
  enable_all = enable (union read_events write_events)

  unfoldable pub disable_all : Channel → State → Channel × State
  unfolding disable
  disable_all = disable (union read_events write_events)

  unfoldable pub update_events : Events → Channel → State → Channel × State
  unfolding notify
  update_events evs c k =
      if same_events c.events evs then (c, k) else notify (record c { events = evs }) k

  -- `remove`
  unfoldable pub remove : Channel → State → Channel × State
  unfolding disable_all
  remove = disable_all

  unfoldable pub destroy : Channel → State → Channel × State
  unfolding remove
  destroy c k =
      if is_destroyed c.state
      then (c, k)
      else (let (c', k') = remove c k in (record c' { state = destroyed }, k'))

-- `Channel::Protocol`, over the state `S` that its callbacks change; `none` is an empty one. A
-- callback that faults gives `none` too.
pub record Callbacks (S : Type 0) : Type 0 where
  pub read_cb : Option (S → Option S)
  pub write_cb : Option (S → Option S)
  pub close_cb : Option (S → Option S)
  pub error_cb : Option (S → Option S)

abbrev pub call : {S : Type 0} → Option (S → Option S) → S → Option S
call none s = some s
call (some f) s = f s

-- A callback that is called only if a test on the new events holds.
abbrev pub call_if : {S : Type 0} → Bool → Option (S → Option S) → S → Option S
call_if true cb s = call cb s
call_if false cb s = some s

-- `handle_events`, where `get` and `put` reach the channel in `S`.
module _ {S : Type 0} (get : S → Channel) (put : Channel → S → S) (cbs : Callbacks S) where
  unfoldable pub handle_events : Events → S → Option S
  handle_events ev s = if is_destroyed (get s).state then some s else (do
    s1 ← call_if (ev.pollhup && not ev.pollin) cbs.close_cb s
    s2 ← call_if (ev.pollnval || ev.pollerr) cbs.error_cb s1
    s3 ← call_if (ev.pollin || ev.pollpri || ev.pollrdhup) cbs.read_cb s2
    s4 ← call_if ev.pollout cbs.write_cb s3
    some (put (record (get s4) { prev_events = ev }) s4))
