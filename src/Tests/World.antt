-- ===== src/Tests/World.antt =====
-- A socket and an epoll instance that behave as src/net/ expects of the system, for the tests.
use netyo.Prelude.{
  false, ℕ, zero, suc, ◌-◌, ◌≤◌, ◌≡◌, refl, sym, arith, List, [], ◌∷◌, ◌++◌, Option, none, some,
  length, take, drop, min, length-take, take-append-drop,
}
use netyo.Posix.{Socket}
use netyo.Epoll.{Events, Op, ctl_add, ctl_mod, ctl_del, Epoll}

-- The bytes to read, those sent, and how many more are accepted.
pub record Line : Type 0 where
  pub inbox : List ℕ
  pub outbox : List ℕ
  pub quota : ℕ

abbrev pub readv_from : List ℕ → Line → ℕ → Line × Option (List ℕ)
readv_from [] k n = (k, none)
readv_from (b ∷ bs) k n = (record k { inbox = drop n (b ∷ bs) }, some (take n (b ∷ bs)))

-- A write fails once when nothing more is accepted; then the peer makes room.
abbrev pub write_with : ℕ → Line → List ℕ → Line × Option ℕ
write_with zero k bs = (record k { quota = 100 }, none)
write_with (suc q) k bs = (
  record k {
    outbox = k.outbox ++ take (min (suc q) (length bs)) bs;
    quota = suc q - min (suc q) (length bs);
  },
  some (min (suc q) (length bs)),
)

pub readv_from-some :
    (i : List ℕ) (k : Line) (n : ℕ) (bs : List ℕ)
    → (readv_from i k n).1 ≡ some bs
    → i ≡ k.inbox
    → (length bs ≤ n) × (k.inbox ≡ bs ++ (readv_from i k n).0.inbox)
readv_from-some [] k n bs h e = cc
readv_from-some (b ∷ i) k n bs h e =
    let same : take n (b ∷ i) ≡ bs = cc in
    rw (← same, ← e) (omega (arith, length-take n (b ∷ i)), sym (take-append-drop n (b ∷ i)))

pub readv_from-none :
    (i : List ℕ) (k : Line) (n : ℕ)
    → (readv_from i k n).1 ≡ none
    → (readv_from i k n).0.inbox ≡ k.inbox
readv_from-none [] k n h = refl
readv_from-none (b ∷ i) k n h = cc

pub write_with-some :
    (q : ℕ) (k : Line) (bs : List ℕ) (n : ℕ)
    → (write_with q k bs).1 ≡ some n
    → (n ≤ length bs) × ((write_with q k bs).0.outbox ≡ k.outbox ++ take n bs)
write_with-some zero k bs n h = cc
write_with-some (suc q) k bs n h =
    let same : min (suc q) (length bs) ≡ n = cc in rw (← same) (omega arith, refl)

pub write_with-none :
    (q : ℕ) (k : Line) (bs : List ℕ)
    → (write_with q k bs).1 ≡ none
    → (write_with q k bs).0.outbox ≡ k.outbox
write_with-none zero k bs h = refl
write_with-none (suc q) k bs h = cc

abbrev pub line_socket : Socket
line_socket = record {
  State = Line;
  readv = λ k n. readv_from k.inbox k n;
  write = λ k bs. write_with k.quota k bs;
  unread = λ k. k.inbox;
  sent = λ k. k.outbox;
  shutdown_read = λ k. k;
  shutdown_both = λ k. k;
  take_error = λ k. (k, 0);
  readv_some = λ k n bs h. readv_from-some k.inbox k n bs h refl;
  readv_none = λ k n h. readv_from-none k.inbox k n h;
  write_some = λ k bs n h. write_with-some k.quota k bs n h;
  write_none = λ k bs h. write_with-none k.quota k bs h;
}

-- An interest list with room for one descriptor.
abbrev pub watch : Option Events → Op → Option Events
watch none (ctl_add ev) = some ev
watch (some old) (ctl_add ev) = some old
watch none (ctl_mod ev) = none
watch (some old) (ctl_mod ev) = some ev
watch k ctl_del = none

pub add_new_lem : (k : Option Events) (ev : Events) → k ≡ none → watch k (ctl_add ev) ≡ some ev
add_new_lem none ev h = refl
add_new_lem (some old) ev h = cc

pub mod_known_lem :
    (k : Option Events) (old ev : Events) → k ≡ some old → watch k (ctl_mod ev) ≡ some ev
mod_known_lem none old ev h = cc
mod_known_lem (some o) old ev h = refl

pub del_lem : (k : Option Events) → watch k ctl_del ≡ none
del_lem none = refl
del_lem (some o) = refl

pub add_known_lem :
    (k : Option Events) (old ev : Events) → k ≡ some old → watch k (ctl_add ev) ≡ some old
add_known_lem none old ev h = cc
add_known_lem (some o) old ev h = h

pub mod_new_lem : (k : Option Events) (ev : Events) → k ≡ none → watch k (ctl_mod ev) ≡ none
mod_new_lem none ev h = refl
mod_new_lem (some o) ev h = cc

abbrev pub one_epoll : Epoll
one_epoll = record {
  State = Option Events;
  ctl = λ k fd op. watch k op;
  interest = λ k fd. k;
  exhausted = λ k fd op. false;
  ctl_exhausted = λ k fd op x. cc;
  add_new = λ k fd ev x h. add_new_lem k ev h;
  mod_known = λ k fd old ev x h. mod_known_lem k old ev h;
  del_known = λ k fd old x h. del_lem k;
  add_known = λ k fd old ev h. add_known_lem k old ev h;
  mod_new = λ k fd ev h. mod_new_lem k ev h;
  del_new = λ k fd h. del_lem k;
}
