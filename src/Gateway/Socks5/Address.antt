-- ===== src/Gateway/Socks5/Address.antt =====
-- gateway/socks5.rs: the address of a request, as it is written to the upstream and as it is read.
use warpdeck.Prelude.{
  ℕ, zero, suc, ◌%◌, ◌<◌, ◌≤◌, ◌≡◌, refl, Option, none, some, List, [], ◌∷◌, ◌++◌, length, take,
  drop, split_at?, arith,
}
use warpdeck.Gateway.Socks5.{Target, push_into, read_target_addr}

pub split_at?-append : (a rest : List ℕ) → split_at? (length a) (a ++ rest) ≡ some (a, rest)
split_at?-append [] rest = refl
split_at?-append (x ∷ xs) rest = rw (split_at?-append xs rest) refl

-- Addresses as they can be read: of the right length, a domain of at most 255 bytes that the decoding
-- of its text leaves alone.
abbrev pub IsReadable : (List ℕ → List ℕ) → Target → Type 0
IsReadable decode (Target.v4 o) = length o ≡ 4
IsReadable decode (Target.domain d) = (length d < 256) × (decode d ≡ d)
IsReadable decode (Target.v6 o) = length o ≡ 16

-- The address part of a request, without the three bytes in front.
abbrev pub address : Target → List ℕ
address target = push_into target []

abbrev pub read_address : (List ℕ → List ℕ) → List ℕ → Option (Target × List ℕ)
read_address decode [] = none
read_address decode (atyp ∷ input) = read_target_addr decode atyp input

module _ (decode : List ℕ → List ℕ) where
  -- Reading what has been written for an address of at most 255 bytes gives the address back and leaves
  -- what follows it.
  pub read_address-address :
      (target : Target) (rest : List ℕ)
      → IsReadable decode target
      → read_address decode (address target ++ rest) ≡ some (target, rest)
  unfolding read_target_addr
  read_address-address (Target.v4 o) rest short =
      let q : split_at? 4 (o ++ rest) ≡ some (o, rest) = rw short at (split_at?-append o rest) in
      ground (arith, q)
  read_address-address (Target.domain d) rest (short, same) =
      let n : length d % 256 ≡ length d = omega arith in
      let q : split_at? (length d % 256) (d ++ rest) ≡ some (d, rest) =
        rw n (split_at?-append d rest) in
      ground (arith, q)
  read_address-address (Target.v6 o) rest short =
      let q : split_at? 16 (o ++ rest) ≡ some (o, rest) = rw short at (split_at?-append o rest) in
      ground (arith, q)

  split_at?-take :
      (n : ℕ) (a rest : List ℕ)
      → n ≤ length a
      → split_at? n (a ++ rest) ≡ some (take n a, drop n a ++ rest)
  split_at?-take zero a rest h = refl
  split_at?-take (suc n) [] rest h = absurd (omega arith)
  split_at?-take (suc n) (x ∷ xs) rest h = rw (split_at?-take n xs rest (omega arith)) refl

  -- A domain of 256 bytes or more, as the decoding of a shorter one can give it and as the HTTP
  -- handler takes it from a request, is written with its length modulo 256: the upstream reads as many of
  -- its first bytes as that is for the domain, and all others stand where the port and what follows
  -- should be.
  pub read_address-long :
      (d rest : List ℕ)
      → 256 ≤ length d
      → read_address decode (address (Target.domain d) ++ rest)
        ≡ some (Target.domain (decode (take (length d % 256) d)), drop (length d % 256) d ++ rest)
  unfolding read_target_addr
  read_address-long d rest long =
      let p = split_at?-take (length d % 256) d rest (omega arith) in ground (arith, p)
