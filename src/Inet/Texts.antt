-- ===== src/Inet/Texts.antt =====
-- The addresses of src/net/Socket.h that are made from texts, and the texts that they give.
use netyo.Prelude.{
  ℕ, zero, suc, ◌≤◌, ◌≡◌, ◌∙◌, sym, ap, List, [], ◌∷◌, ◌++◌, arith, length, overwrite, replicate,
  take, drop, Option-cases, ◌⊎◌, some, none, refl, inl, inr, subst,
}
use netyo.Inet.{
  Addresses, InetAddr, af_inet, af_inet6, zero_addr, sockaddrlen, port, of_ip, ip, text,
}

-- Bytes written over zeros are read back.
take-overwrite :
    (n : ℕ) (xs bs : List ℕ) → length bs ≡ n → n ≤ length xs → take n (overwrite xs 0 bs) ≡ bs
take-overwrite zero xs [] e h = refl
take-overwrite zero xs (b ∷ bs) e h = absurd (omega (arith, e))
take-overwrite (suc n) [] bs e h = absurd (omega (arith, h))
take-overwrite (suc n) (x ∷ xs) [] e h = absurd (omega (arith, e))
take-overwrite (suc n) (x ∷ xs) (b ∷ bs) e h =
    ap (λ l. b ∷ l) (take-overwrite n xs bs (omega (arith, e)) (omega (arith, h)))

module _ (c : Addresses) where
  -- An address of a family and its length, with a port and an address text.
  pub record IsAddress (af len p : ℕ) (bytes : List ℕ) (a : InetAddr) : Type 0 where
    pub family_is : a.family ≡ af
    pub port_is : port a ≡ c.htons p
    pub length_is : sockaddrlen a ≡ len
    pub text_is : text c a ≡ c.inet_ntop af bytes ++ 58 ∷ c.to_string (c.htons p)
    pub again : of_ip c (ip c a) p ≡ a

  abbrev addr_v4 : List ℕ → ℕ → InetAddr
  addr_v4 bytes p = record {
    family = af_inet;
    port_field = c.htons p;
    rest = overwrite (replicate 24 0) 0 bytes;
  }

  abbrev addr_v6 : List ℕ → ℕ → InetAddr
  addr_v6 bytes p = record {
    family = af_inet6;
    port_field = c.htons p;
    rest = overwrite (replicate 24 0) 4 bytes;
  }

  addr_v4-IsAddress :
      (bytes : List ℕ) (p : ℕ) → length bytes ≡ 4 → IsAddress af_inet 16 p bytes (addr_v4 bytes p)
  unfolding of_ip ip text port sockaddrlen
  addr_v4-IsAddress bytes p l =
      let back : take 4 (overwrite (replicate 24 0) 0 bytes) ≡ bytes =
        take-overwrite 4 (replicate 24 0) bytes l (omega arith) in
      record {
        family_is = refl;
        port_is = refl;
        length_is = refl;
        text_is = ap (λ b. c.inet_ntop af_inet b ++ 58 ∷ c.to_string (c.htons p)) back;
        again =
            ap (λ b. of_ip c (c.inet_ntop af_inet b) p) back ∙ rw (c.reads_v4 bytes l, of_ip) refl;
      }

  addr_v6-IsAddress :
      (bytes : List ℕ) (p : ℕ) → length bytes ≡ 16 → IsAddress af_inet6 28 p bytes (addr_v6 bytes p)
  unfolding of_ip ip text port sockaddrlen
  addr_v6-IsAddress bytes p l =
      let back : take 16 (drop 4 (overwrite (replicate 24 0) 4 bytes)) ≡ bytes =
        take-overwrite 16 (replicate 20 0) bytes l (omega arith) in
      record {
        family_is = refl;
        port_is = refl;
        length_is = refl;
        text_is = ap (λ b. c.inet_ntop af_inet6 b ++ 58 ∷ c.to_string (c.htons p)) back;
        again =
            ap (λ b. of_ip c (c.inet_ntop af_inet6 b) p) back
            ∙ rw (c.distinct bytes l, of_ip, c.reads_v6 bytes l) refl;
      }

  -- The address of a text and a port. Where the text is one of IPv4, or else one of IPv6, the address
  -- has that family, its length and the port in network order; it is printed as the address, a colon
  -- and the number in network order, and the text of its `ip` with the same port gives the same address
  -- again. Any other text gives the address of all zeros.
  pub of_ip-text :
      (ipaddr : List ℕ) (p : ℕ)
      → ((bytes : List ℕ) × (c.inet_pton af_inet ipaddr ≡ some bytes)
          × IsAddress af_inet 16 p bytes (of_ip c ipaddr p))
        ⊎ ((bytes : List ℕ) × (c.inet_pton af_inet ipaddr ≡ none)
            × (c.inet_pton af_inet6 ipaddr ≡ some bytes)
            × IsAddress af_inet6 28 p bytes (of_ip c ipaddr p))
        ⊎ ((c.inet_pton af_inet ipaddr ≡ none)
            × (c.inet_pton af_inet6 ipaddr ≡ none)
            × (of_ip c ipaddr p ≡ zero_addr))
  unfolding of_ip
  of_ip-text ipaddr p = elim (Option-cases (c.inet_pton af_inet ipaddr)) [
    | inr (bytes, q) ↦
        let e : of_ip c ipaddr p ≡ addr_v4 bytes p = rw (q, of_ip) refl in
        inl (
          bytes,
          q,
          subst (IsAddress af_inet 16 p bytes) (sym e)
              (addr_v4-IsAddress bytes p (c.size_v4 ipaddr bytes q)),
        )
    | inl q ↦ elim (Option-cases (c.inet_pton af_inet6 ipaddr)) [
      | inr (bytes, u) ↦
          let e : of_ip c ipaddr p ≡ addr_v6 bytes p = rw (q, of_ip, u) refl in
          inr (
            inl (
              bytes,
              q,
              u,
              subst (IsAddress af_inet6 28 p bytes) (sym e)
                  (addr_v6-IsAddress bytes p (c.size_v6 ipaddr bytes u)),
            ))
      | inl u ↦ inr (inr (q, u, rw (q, of_ip, u) refl))
    ]
  ]
