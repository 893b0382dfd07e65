-- ===== src/Server/Wiring.antt =====
-- The callbacks that the constructor of `TcpServer` (src/net/Server.h) puts into the protocol of its
-- connections, which is by default one static object for all servers.
use netyo.Prelude.{
  ℕ, ◌≡◌, ◌∙◌, ap, List, [], ◌∷◌, Option, none, some, ◌>>=◌, if◌then◌else◌, ◌==◌, ℕ_discrete, refl,
  sym, fun_ext, ◌⊎◌, inl, inr, ◌≢◌, Option-cases, arith, >>=-assoc,
}
use netyo.Server.Timeouts.{Timeouts, reset_timeout_in_loop, erase_connection}

-- The timeouts of each server. A connection has the same number for all of them.
abbrev pub Servers : Type 0
Servers = ℕ → Timeouts

-- The two callbacks of `TcpTransport::Protocol` that the constructor sets: the connection, its timeout
-- in seconds, and what the servers have in their loops when these have run what they are given.
pub record ClientProtocol : Type 0 where
  pub reset_timeout_cb : Option (ℕ → ℕ → Servers → Option Servers)
  pub connection_lost_cb : Option (ℕ → Servers → Option Servers)

abbrev pub run_reset : ClientProtocol → ℕ → ℕ → Servers → Option Servers
run_reset p c timeout w = elim p.reset_timeout_cb [ none ↦ some w | some f ↦ f c timeout w ]

abbrev pub run_lost : ClientProtocol → ℕ → Servers → Option Servers
run_lost p c w = elim p.connection_lost_cb [ none ↦ some w | some f ↦ f c w ]

abbrev pub changed : ℕ → Timeouts → Servers → Servers
changed server s w k = if k == server then s else w k

unfoldable pub reset_in : ℕ → ℕ → ℕ → Servers → Option Servers
reset_in server c timeout w =
    reset_timeout_in_loop c timeout (w server) >>= λ s. some (changed server s w)

unfoldable pub erase_in : ℕ → ℕ → Servers → Option Servers
erase_in server c w = some (changed server (erase_connection c (w server)) w)

abbrev pub ResetCallBack : Type 0
ResetCallBack = Option (ℕ → ℕ → Servers → Option Servers)

abbrev pub LostCallBack : Type 0
LostCallBack = Option (ℕ → Servers → Option Servers)

-- `reset_timeout_cb` is set if it is empty; `connection_lost_cb` becomes a callback that runs the one
-- that was there, if any, and removes the connection later.
abbrev pub reset_or : ℕ → ResetCallBack → ResetCallBack
reset_or server none = some (reset_in server)
reset_or server (some f) = some f

abbrev pub lost_then : ℕ → LostCallBack → LostCallBack
lost_then server none = some (erase_in server)
lost_then server (some conn_lost_cb) = some (λ c w. conn_lost_cb c w >>= erase_in server c)

unfoldable pub install : ℕ → ClientProtocol → ClientProtocol
install server p = record {
  reset_timeout_cb = reset_or server p.reset_timeout_cb;
  connection_lost_cb = lost_then server p.connection_lost_cb;
}

-- Several servers, one after the other, with the same protocol.
unfoldable pub install_all : List ℕ → ClientProtocol → ClientProtocol
unfolding install
install_all [] p = p
install_all (server ∷ servers) p = install_all servers (install server p)

unfoldable pub erase_all : List ℕ → ℕ → Servers → Option Servers
unfolding erase_in
erase_all [] c w = some w
erase_all (server ∷ servers) c w = erase_in server c w >>= erase_all servers c

install_all-reset :
    (servers : List ℕ) (p : ClientProtocol) (f : ℕ → ℕ → Servers → Option Servers)
    → p.reset_timeout_cb ≡ some f
    → (install_all servers p).reset_timeout_cb ≡ some f
unfolding install_all
install_all-reset [] p f h = h
install_all-reset (s ∷ ss) p f h = install_all-reset ss (install s p) f (ap (reset_or s) h)

erase_first :
    (server c : ℕ) (o : LostCallBack) (w : Servers)
    → (elim (lost_then server o) [ none ↦ some w | some f ↦ f c w ])
      ≡ ((elim o [ none ↦ some w | some f ↦ f c w ]) >>= erase_in server c)
erase_first server c none w = refl
erase_first server c (some f) w = refl

>>=-erase_all : (m : Option Servers) (c : ℕ) → (m >>= erase_all [] c) ≡ m
unfolding erase_all
>>=-erase_all none c = refl
>>=-erase_all (some w) c = refl

install_all-lost :
    (servers : List ℕ) (p : ClientProtocol) (c : ℕ) (w : Servers)
    → run_lost (install_all servers p) c w ≡ (run_lost p c w >>= erase_all servers c)
unfolding install_all erase_all
install_all-lost [] p c w = sym (>>=-erase_all (run_lost p c w) c)
install_all-lost (s ∷ ss) p c w =
    install_all-lost ss (install s p) c w
    ∙ ap (λ m. m >>= erase_all ss c) (erase_first s c p.connection_lost_cb w)
    ∙ >>=-assoc (run_lost p c w) (erase_in s c) (erase_all ss c)

changed-same : (server k : ℕ) (w : Servers) → changed server (w server) w k ≡ w k
changed-same server k w = elim (ℕ_discrete k server) [
  | yes z ↦ ground (arith, z, ap w z)
  | no z ↦ ground (arith, z)
]

reset_in-unknown :
    (server c timeout : ℕ) (w : Servers)
    → (w server).connections c ≡ none
    → reset_in server c timeout w ≡ some w
unfolding reset_in reset_timeout_in_loop
reset_in-unknown server c timeout w h =
    let stays : reset_timeout_in_loop c timeout (w server) ≡ some (w server) =
      rw (reset_timeout_in_loop, h) refl in
    rw stays (ap some (fun_ext λ k. changed-same server k w))

-- Servers that are made one after the other with a protocol that has no `reset_timeout_cb`: a reset of
-- the timeout of any connection of any of them goes to the first server, and does nothing if that does
-- not have the connection. A connection that is lost is removed from all the servers, after the callback
-- that was there at first, if any.
pub install_all-shared :
    (server : ℕ) (servers : List ℕ) (p : ClientProtocol) (c timeout : ℕ) (w : Servers)
    → p.reset_timeout_cb ≡ none
    → let q = install_all (server ∷ servers) p in
      (run_reset q c timeout w ≡ reset_in server c timeout w)
      × (((w server).connections c ≢ none) ⊎ (run_reset q c timeout w ≡ some w))
      × (run_lost q c w ≡ (run_lost p c w >>= erase_all (server ∷ servers) c))
unfolding install_all
install_all-shared server servers p c timeout w h =
    let q : ClientProtocol = install_all (server ∷ servers) p in
    let own : q.reset_timeout_cb ≡ some (reset_in server) =
      install_all-reset servers (install server p) (reset_in server) (ap (reset_or server) h) in
    let first : run_reset q c timeout w ≡ reset_in server c timeout w =
      ap (λ (f : ResetCallBack). elim f [ none ↦ some w | some g ↦ g c timeout w ]) own in
    (
      first,
      elim (Option-cases ((w server).connections c)) [
        | inl e ↦ inr (first ∙ reset_in-unknown server c timeout w e)
        | inr (x, e) ↦ inl (λ z. absurd (ground (arith, z, e)))
      ],
      install_all-lost (server ∷ servers) p c w,
    )
