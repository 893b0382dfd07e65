-- ===== src/Inet.antt =====
-- The class `InetAddr` of src/net/Socket.h, over the address functions of the C library. Texts are lists
-- of characters, addresses lists of bytes.
pub mod Texts
use netyo.Prelude.{
  ℕ, ◌≡◌, Bool, Option, none, some, List, [], ◌∷◌, ◌++◌, if◌then◌else◌, ◌==◌, length, overwrite,
  replicate, take, drop,
}

abbrev pub af_inet : ℕ
af_inet = 2

abbrev pub af_inet6 : ℕ
af_inet6 = 10

-- `htons(3)`, `inet_pton(3)`, `inet_ntop(3)` and `to_string`: an address of IPv4 has 4 bytes and one of
-- IPv6 has 16; what has been printed is read as the same address again, and what is printed for an
-- address of IPv6 is none of IPv4.
pub record Addresses : Type 0 where
  pub htons : ℕ → ℕ
  pub inet_pton : ℕ → List ℕ → Option (List ℕ)
  pub inet_ntop : ℕ → List ℕ → List ℕ
  pub to_string : ℕ → List ℕ
  pub size_v4 : (text bytes : List ℕ) → inet_pton af_inet text ≡ some bytes → length bytes ≡ 4
  pub size_v6 : (text bytes : List ℕ) → inet_pton af_inet6 text ≡ some bytes → length bytes ≡ 16
  pub reads_v4 :
      (bytes : List ℕ) → length bytes ≡ 4 → inet_pton af_inet (inet_ntop af_inet bytes) ≡ some bytes
  pub reads_v6 :
      (bytes : List ℕ)
      → length bytes ≡ 16
      → inet_pton af_inet6 (inet_ntop af_inet6 bytes) ≡ some bytes
  pub distinct :
      (bytes : List ℕ) → length bytes ≡ 16 → inet_pton af_inet (inet_ntop af_inet6 bytes) ≡ none

-- The union of `sockaddr_in` and `sockaddr_in6`: both begin with the family and the port; `rest` is the
-- other 24 bytes, in which `sin_addr` is at 0 and `sin6_addr` at 4.
pub record InetAddr : Type 0 where
  pub family : ℕ
  pub port_field : ℕ
  pub rest : List ℕ

-- `InetAddr()`. (A copy copies all of the union.)
abbrev pub zero_addr : InetAddr
zero_addr = record { family = 0; port_field = 0; rest = replicate 24 0 }

abbrev pub is_ipv4 : InetAddr → Bool
is_ipv4 a = a.family == af_inet

unfoldable pub sockaddrlen : InetAddr → ℕ
sockaddrlen a = if is_ipv4 a then 16 else 28

-- `sin_port` and `sin6_port` are the same bytes.
unfoldable pub port : InetAddr → ℕ
port a = if is_ipv4 a then a.port_field else a.port_field

module _ (c : Addresses) where
  -- `InetAddr(ipaddr, port)`
  unfoldable pub of_ip : List ℕ → ℕ → InetAddr
  of_ip ipaddr port = elim (c.inet_pton af_inet ipaddr) [
    | some bytes ↦ record {
      family = af_inet;
      port_field = c.htons port;
      rest = overwrite (replicate 24 0) 0 bytes;
    }
    | none ↦ elim (c.inet_pton af_inet6 ipaddr) [
      | some bytes ↦ record {
        family = af_inet6;
        port_field = c.htons port;
        rest = overwrite (replicate 24 0) 4 bytes;
      }
      | none ↦ zero_addr
    ]
  ]

  unfoldable pub ip : InetAddr → List ℕ
  ip a =
      if is_ipv4 a
      then c.inet_ntop af_inet (take 4 a.rest)
      else c.inet_ntop af_inet6 (take 16 (drop 4 a.rest))

  -- `operator string()`
  unfoldable pub text : InetAddr → List ℕ
  unfolding ip port
  text a = ip a ++ 58 ∷ c.to_string (port a)
