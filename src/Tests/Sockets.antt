-- ===== src/Tests/Sockets.antt =====
-- The addresses and sockets of src/net/Socket.h, over small system calls.
use netyo.Prelude.{
  ℕ, ◌+◌, ◌*◌, ◌≡◌, List, [], ◌∷◌, arith, length, if◌then◌else◌, ◌==◌, ◌⊎◌, some, none, Option, ◌/◌,
  ◌&&◌, refl,
}
use netyo.Prelude.{◌||◌, ◌%◌}
use netyo.Prelude.Int.{ℤ, pos, negsuc}
use netyo.Inet.{Addresses, InetAddr, af_inet, af_inet6, zero_addr, of_ip}
use netyo.Inet.Texts.{IsAddress, of_ip-text}
use netyo.Posix.Calls.{Calls}
use netyo.Socket.{Socket, no_socket, accept_socket, take_socket, move_from, set_option, of_fd}

-- A text is the family and the bytes.
unfoldable read_bytes : ℕ → List ℕ → Option (List ℕ)
read_bytes af [] = none
read_bytes af (f ∷ bytes) =
    if (af == af_inet && f == af_inet && length bytes == 4)
      || (af == af_inet6 && f == af_inet6 && length bytes == 16)
    then some bytes
    else none

unfoldable print_bytes : ℕ → List ℕ → List ℕ
print_bytes af bytes = af ∷ bytes

read_bytes-v4 : (text bytes : List ℕ) → read_bytes af_inet text ≡ some bytes → length bytes ≡ 4
unfolding read_bytes
read_bytes-v4 [] bytes h = absurd cc
read_bytes-v4 (f ∷ fs) bytes h = ground (arith, h)

read_bytes-v6 : (text bytes : List ℕ) → read_bytes af_inet6 text ≡ some bytes → length bytes ≡ 16
unfolding read_bytes
read_bytes-v6 [] bytes h = absurd cc
read_bytes-v6 (f ∷ fs) bytes h = ground (arith, h)

read_bytes-print_bytes_v4 :
    (bytes : List ℕ)
    → length bytes ≡ 4
    → read_bytes af_inet (print_bytes af_inet bytes) ≡ some bytes
unfolding read_bytes print_bytes
read_bytes-print_bytes_v4 bytes h = ground (arith, h)

read_bytes-print_bytes_v6 :
    (bytes : List ℕ)
    → length bytes ≡ 16
    → read_bytes af_inet6 (print_bytes af_inet6 bytes) ≡ some bytes
unfolding read_bytes print_bytes
read_bytes-print_bytes_v6 bytes h = ground (arith, h)

read_bytes-other :
    (bytes : List ℕ) → length bytes ≡ 16 → read_bytes af_inet (print_bytes af_inet6 bytes) ≡ none
unfolding read_bytes print_bytes
read_bytes-other bytes h = ground (arith, h)

abbrev small_addresses : Addresses
small_addresses = record {
  htons = λ p. p / 256 + 256 * (p % 256);
  inet_pton = read_bytes;
  inet_ntop = print_bytes;
  to_string = λ p. p ∷ [];
  size_v4 = read_bytes-v4;
  size_v6 = read_bytes-v6;
  reads_v4 = read_bytes-print_bytes_v4;
  reads_v6 = read_bytes-print_bytes_v6;
  distinct = read_bytes-other;
}

abbrev local_host : List ℕ
local_host = 2 ∷ 127 ∷ 0 ∷ 0 ∷ 1 ∷ []

of_ip-text_example :
    ((bytes : List ℕ) × (read_bytes af_inet local_host ≡ some bytes)
      × IsAddress small_addresses af_inet 16 80 bytes (of_ip small_addresses local_host 80))
    ⊎ ((bytes : List ℕ) × (read_bytes af_inet local_host ≡ none)
        × (read_bytes af_inet6 local_host ≡ some bytes)
        × IsAddress small_addresses af_inet6 28 80 bytes (of_ip small_addresses local_host 80))
    ⊎ ((read_bytes af_inet local_host ≡ none)
        × (read_bytes af_inet6 local_host ≡ none)
        × (of_ip small_addresses local_host 80 ≡ zero_addr))
of_ip-text_example = of_ip-text small_addresses local_host 80

-- The system's state is the descriptors that have been closed, and those that options were set on.
abbrev small_calls : Calls InetAddr
small_calls = record {
  State = List ℕ × List ℤ;
  socket = λ k family type proto. (k, pos 3);
  close = λ k fd. (fd ∷ k.0, k.1);
  setsockopt = λ k fd level optname value. (k.0, fd ∷ k.1);
  bind = λ k fd a len. (k, pos 0);
  connect = λ k fd a len. (k, pos 0);
  listen = λ k fd n. (k, pos 0);
  accept4 = λ k fd. (k, pos 5);
  shutdown = λ k fd op. (k, pos 0);
  getsockname = λ k fd. some zero_addr;
  getpeername = λ k fd. none;
  sock_error = λ k fd. (k, some 0);
  errno = λ k. 0;
  write = λ k fd len. (k, pos len);
}

abbrev accepting_socket : Socket
accepting_socket = record no_socket { sock_fd = pos 4 }

-- The socket of a connection has the descriptor 5, and its options are set on -1.
accept_socket-options :
    let (k1, accepted) = accept_socket small_calls accepting_socket ([], []) in
    let (k2, own, left) = take_socket small_calls accepted k1 in
    (own.sock_fd ≡ pos 5) × (k2 ≡ ([], negsuc 0 ∷ negsuc 0 ∷ []))
unfolding accept_socket take_socket move_from set_option of_fd
accept_socket-options = (refl, refl)
