-- ===== src/Transport/Lost.antt =====
-- A connection of src/net/Transport.cpp is given up once: the connections that can be reached.
use netyo.Prelude.{ℕ, ◌≡◌, List, some, false}
use netyo.Epoll.{Epoll}
use netyo.Posix.{Socket}
use netyo.Epoll.{Events}
use netyo.Transport.{
  handle_event, Conn, Protocol, closed, force_close, close, activate_in_loop, send_in_loop,
}
use netyo.Transport.Counting.{
  IsCounted, IsFair, handle_event-Counts, activate_in_loop-Counts, send_in_loop-Counts,
  close-Counts, force_close-Counts,
}

module _ (e : Epoll) (c : Socket) where
  -- What the loop and the program do to a connection.
  pub data Step (p : Protocol e c) (t u : Conn e c) : Type 0 where
    event : (ev : Events) → handle_event e c p ev t ≡ some u → Step p t u
    activation : closed e c t ≡ false → activate_in_loop e c p t ≡ some u → Step p t u
    sending : (bs : List ℕ) → send_in_loop e c p bs t ≡ some u → Step p t u
    closing : close e c p t ≡ some u → Step p t u
    forcing : force_close e c p t ≡ some u → Step p t u

  pub data Reach (p : Protocol e c) (t : Conn e c) : Conn e c → Type 0 where
    here : Reach p t t
    next : {u v : Conn e c} → Reach p t u → Step p u v → Reach p t v

  Step-IsCounted :
      (p : Protocol e c)
      → IsFair e c p
      → (t u : Conn e c) → Step p t u
      → IsCounted e c t
      → IsCounted e c u
  Step-IsCounted p fair t u (event ev q) h = handle_event-Counts e c p fair ev t h u q
  Step-IsCounted p fair t u (activation op q) h = activate_in_loop-Counts e c p fair t h op u q
  Step-IsCounted p fair t u (sending bs q) h = send_in_loop-Counts e c p fair bs t h u q
  Step-IsCounted p fair t u (closing q) h = close-Counts e c p fair t h u q
  Step-IsCounted p fair t u (forcing q) h = force_close-Counts e c p fair t h u q

  -- Begun at a connection that is counted (one that is open and was never given up is), with callbacks
  -- that keep the count and a `connection_made_cb` that leaves an open connection open, any sequence of
  -- channel events, activations of an open connection, sends and closes ends in a connection that has
  -- been given up once if it is closed, and not at all if it is not.
  pub Reach-IsCounted :
      (p : Protocol e c) (t u : Conn e c)
      → IsFair e c p
      → IsCounted e c t
      → Reach p t u
      → IsCounted e c u
  Reach-IsCounted p t u fair h here = h
  Reach-IsCounted p t u fair h (next {u = w} r st) =
      Step-IsCounted p fair w u st (Reach-IsCounted p t w fair h r)
