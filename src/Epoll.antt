-- ===== src/Epoll.antt =====
-- `epoll_ctl(2)`, as its manual page describes it, and what src/net/eventloop/selectors/
-- EpollSelector.cpp asks of it. The interface is no code of the repository.
pub mod Select
use netyo.Prelude.{ℕ, ◌≡◌, Bool, true, false, ◌||◌, ◌&&◌, not, Option, none, some}

-- An event mask (`int`), by the flags of <poll.h> that the code tests or sets.
pub record Events : Type 0 where
  pub pollin : Bool
  pub pollpri : Bool
  pub pollout : Bool
  pub pollerr : Bool
  pub pollhup : Bool
  pub pollnval : Bool
  pub pollrdhup : Bool

pub data Op : Type 0 where
  ctl_add ctl_mod : Events → Op
  ctl_del : Op

pub record Epoll : Type 1 where
  pub State : Type 0
  pub ctl : State → ℕ → Op → State
  -- The mask that a descriptor is watched for, if it is in the interest list.
  pub interest : State → ℕ → Option Events
  -- A call that fails for want of memory or of room for watches, or as the descriptor cannot be polled.
  -- It changes nothing.
  pub exhausted : State → ℕ → Op → Bool
  pub ctl_exhausted :
      (k : State) (fd : ℕ) (op : Op)
      → exhausted k fd op ≡ true
      → interest (ctl k fd op) fd ≡ interest k fd
  -- Otherwise: `EPOLL_CTL_ADD` of a new descriptor, and `EPOLL_CTL_MOD` and `EPOLL_CTL_DEL` of a known
  -- one.
  pub add_new :
      (k : State) (fd : ℕ) (ev : Events)
      → exhausted k fd (ctl_add ev) ≡ false
      → interest k fd ≡ none
      → interest (ctl k fd (ctl_add ev)) fd ≡ some ev
  pub mod_known :
      (k : State) (fd : ℕ) (old ev : Events)
      → exhausted k fd (ctl_mod ev) ≡ false
      → interest k fd ≡ some old
      → interest (ctl k fd (ctl_mod ev)) fd ≡ some ev
  pub del_known :
      (k : State) (fd : ℕ) (old : Events)
      → exhausted k fd ctl_del ≡ false
      → interest k fd ≡ some old
      → interest (ctl k fd ctl_del) fd ≡ none
  -- A call for a descriptor of the other kind fails, with `EEXIST` or `ENOENT`.
  pub add_known :
      (k : State) (fd : ℕ) (old ev : Events)
      → interest k fd ≡ some old
      → interest (ctl k fd (ctl_add ev)) fd ≡ some old
  pub mod_new :
      (k : State) (fd : ℕ) (ev : Events)
      → interest k fd ≡ none
      → interest (ctl k fd (ctl_mod ev)) fd ≡ none
  pub del_new : (k : State) (fd : ℕ) → interest k fd ≡ none → interest (ctl k fd ctl_del) fd ≡ none

-- `|` and `& ~` of masks, and the test `!= 0`.
abbrev pub union : Events → Events → Events
union a b = record {
  pollin = a.pollin || b.pollin;
  pollpri = a.pollpri || b.pollpri;
  pollout = a.pollout || b.pollout;
  pollerr = a.pollerr || b.pollerr;
  pollhup = a.pollhup || b.pollhup;
  pollnval = a.pollnval || b.pollnval;
  pollrdhup = a.pollrdhup || b.pollrdhup;
}

abbrev pub without : Events → Events → Events
without a b = record {
  pollin = a.pollin && not b.pollin;
  pollpri = a.pollpri && not b.pollpri;
  pollout = a.pollout && not b.pollout;
  pollerr = a.pollerr && not b.pollerr;
  pollhup = a.pollhup && not b.pollhup;
  pollnval = a.pollnval && not b.pollnval;
  pollrdhup = a.pollrdhup && not b.pollrdhup;
}

abbrev pub any : Events → Bool
any a = a.pollin || a.pollpri || a.pollout || a.pollerr || a.pollhup || a.pollnval || a.pollrdhup

abbrev pub none_set : Events
none_set = record {
  pollin = false;
  pollpri = false;
  pollout = false;
  pollerr = false;
  pollhup = false;
  pollnval = false;
  pollrdhup = false;
}

-- `EpollSelector::add`, `modify` and `remove`: what `update` hands to `epoll_ctl`, whose result it
-- drops. (`EPOLLET` is set in every mask and left out here.)
module _ (e : Epoll) where
  open e use {State, ctl}

  unfoldable pub update : Op → ℕ → State → State
  update op fd k = ctl k fd op

  unfoldable pub selector_add : ℕ → Events → State → State
  unfolding update
  selector_add fd ev k = update (ctl_add ev) fd k

  unfoldable pub selector_modify : ℕ → Events → State → State
  unfolding update
  selector_modify fd ev k = update (ctl_mod ev) fd k

  unfoldable pub selector_remove : ℕ → State → State
  unfolding update
  selector_remove fd k = update ctl_del fd k
