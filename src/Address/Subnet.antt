-- ===== src/Address/Subnet.antt =====
-- The masks of `IPV4Address` in East/src/Address.cc, whose addresses lie in the order of the network.
use Prim.Native.Nat.{bit_and, bit_or}
use mathlib.Core.Path.{ap₂}
use native.Mathlib.Nat.{suc-mul, one-le-pow, pow-le-pow_right}
use east.Common.{
  ℕ, zero, suc, ◌+◌, ◌-◌, ◌*◌, ◌/◌, ◌%◌, ◌^◌, ◌≤◌, ◌<◌, ◌≡◌, refl, sym, ap, ◌∙◌, arith, Option,
  some, Outcome, ok, le→leb, le→ltb-false,
}
use east.ByteArray.{Endian, little_endian, big_endian}
use east.ByteArray.Ints.{byteswap, to_bytes_le, of_bytes_le}
use east.Address.{
  byteswap_on_little_endian, create_mask32, complement32, Ipv4Address, ipv4_address,
  get_broadcast_addr, get_network_addr, get_subnet_mask,
}
use east.Address.Masks.{
  bit_and_split, bit_or_split, bit_and_bound, bit_or_bound, bit_and_high, bit_or_low, two_pow_add,
}

-- A number from its four bytes, the highest first.
quad : ℕ → ℕ → ℕ → ℕ → ℕ
quad a b c d = ((a * 2 ^ 8 + b) * 2 ^ 8 + c) * 2 ^ 8 + d

byteswap_four :
    (x : ℕ)
    → byteswap 4 x
      ≡ quad (x % 256) (x / 256 % 256) (x / 256 / 256 % 256) (x / 256 / 256 / 256 % 256)
unfolding byteswap to_bytes_le of_bytes_le quad
byteswap_four x = omega arith

as_quad :
    (x : ℕ)
    → x < 2 ^ 32
    → x ≡ quad (x / 256 / 256 / 256 % 256) (x / 256 / 256 % 256) (x / 256 % 256) (x % 256)
unfolding quad
as_quad x h = omega arith

byteswap-quad :
    (a b c d : ℕ) → a < 256 → b < 256 → c < 256 → d < 256 → byteswap 4 (quad a b c d) ≡ quad d c b a
unfolding byteswap to_bytes_le of_bytes_le quad
byteswap-quad a b c d ha hb hc hd = omega arith

-- An operation that works on each bit of its arguments.
module _ (op : ℕ → ℕ → ℕ)
    (split : (k a b c d : ℕ)
      → b < 2 ^ k
      → d < 2 ^ k
      → op (a * 2 ^ k + b) (c * 2 ^ k + d) ≡ op a c * 2 ^ k + op b d)
    (bound : (k x y : ℕ) → x < 2 ^ k → y < 2 ^ k → op x y < 2 ^ k) where
  op_quad :
      (a b c d a' b' c' d' : ℕ)
      → b < 256
      → c < 256
      → d < 256
      → b' < 256
      → c' < 256
      → d' < 256
      → op (quad a b c d) (quad a' b' c' d') ≡ quad (op a a') (op b b') (op c c') (op d d')
  unfolding quad
  op_quad a b c d a' b' c' d' hb hc hd hb' hc' hd' =
      split 8 ((a * 2 ^ 8 + b) * 2 ^ 8 + c) d ((a' * 2 ^ 8 + b') * 2 ^ 8 + c') d' hd hd'
      ∙ ap (λ (t : ℕ). t * 2 ^ 8 + op d d')
          (split 8 (a * 2 ^ 8 + b) c (a' * 2 ^ 8 + b') c' hc hc'
            ∙ ap (λ (t : ℕ). t * 2 ^ 8 + op c c') (split 8 a b a' b' hb hb'))

  -- It may be done before the bytes are turned round, or after.
  pub op-byteswap :
      (x y : ℕ) → x < 2 ^ 32 → y < 2 ^ 32 → op (byteswap 4 x) (byteswap 4 y) ≡ byteswap 4 (op x y)
  op-byteswap x y h h' =
      ap₂ op (byteswap_four x) (byteswap_four y)
      ∙ op_quad (x % 256) (x / 256 % 256) (x / 256 / 256 % 256) (x / 256 / 256 / 256 % 256)
          (y % 256) (y / 256 % 256) (y / 256 / 256 % 256) (y / 256 / 256 / 256 % 256) (omega arith)
          (omega arith) (omega arith) (omega arith) (omega arith) (omega arith)
      ∙ sym (
          ap (byteswap 4) (
            ap₂ op (as_quad x h) (as_quad y h')
            ∙ op_quad (x / 256 / 256 / 256 % 256) (x / 256 / 256 % 256) (x / 256 % 256) (x % 256)
                (y / 256 / 256 / 256 % 256) (y / 256 / 256 % 256) (y / 256 % 256) (y % 256)
                (omega arith) (omega arith) (omega arith) (omega arith) (omega arith) (omega arith))
          ∙ byteswap-quad (op (x / 256 / 256 / 256 % 256) (y / 256 / 256 / 256 % 256))
              (op (x / 256 / 256 % 256) (y / 256 / 256 % 256)) (op (x / 256 % 256) (y / 256 % 256))
              (op (x % 256) (y % 256))
              (bound 8 (x / 256 / 256 / 256 % 256) (y / 256 / 256 / 256 % 256) (omega arith)
                (omega arith))
              (bound 8 (x / 256 / 256 % 256) (y / 256 / 256 % 256) (omega arith) (omega arith))
              (bound 8 (x / 256 % 256) (y / 256 % 256) (omega arith) (omega arith))
              (bound 8 (x % 256) (y % 256) (omega arith) (omega arith)))

complement-byteswap :
    (x : ℕ) → x < 2 ^ 32 → complement32 (byteswap 4 x) ≡ byteswap 4 (complement32 x)
unfolding quad
complement-byteswap x h = omega (arith, byteswap_four x, byteswap_four (complement32 x))

suc_minus_one : (a : ℕ) → suc a - 1 ≡ a
suc_minus_one a = omega arith

pred-mul : (a b : ℕ) → (a - 1) * b ≡ a * b - b
pred-mul zero b = omega arith
pred-mul (suc a) b = omega (arith, suc-mul a b, ap (λ (t : ℕ). t * b) (suc_minus_one a))

abbrev found : Endian → ℕ → ℕ → Outcome (Option Ipv4Address)
found host port a =
    ok (some (record { sin_port = byteswap_on_little_endian host 2 port; s_addr = a }))

abbrev mask_of : ℕ → ℕ → Outcome Ipv4Address
mask_of port a = ok (record { sin_port = port; s_addr = a })

zero_port : (host : Endian) → 0 ≡ byteswap_on_little_endian host 2 0
unfolding byteswap
zero_port little_endian = refl
zero_port big_endian = refl

-- A prefix for which `CreateMask` is defined.
module _ (n : ℕ) (at_least : 2 ≤ n) (at_most : n ≤ 32) where
  create_mask32_lem : create_mask32 n ≡ ok (2 ^ (32 - n) - 1)
  unfolding create_mask32
  create_mask32_lem = rw (le→leb 2 n at_least, le→leb n 32 at_most) refl

  two_pow_parts : 2 ^ n * 2 ^ (32 - n) ≡ 2 ^ 32
  two_pow_parts = two_pow_add n (32 - n) ∙ ap (λ (t : ℕ). 2 ^ t) {y = 32} (omega arith)

  two_pow_bound : 2 ^ (32 - n) ≤ 2 ^ 32
  two_pow_bound = pow-le-pow_right {n = 2} (omega arith) {i = 32 - n} {j = 32} (omega arith)

  two_pow_least : 1 ≤ 2 ^ (32 - n)
  two_pow_least = one-le-pow (32 - n) 2 (omega arith)

  high_bits : complement32 (2 ^ (32 - n) - 1) ≡ (2 ^ n - 1) * 2 ^ (32 - n)
  high_bits =
      omega (arith, two_pow_parts, two_pow_bound, two_pow_least, pred-mul (2 ^ n) (2 ^ (32 - n)))

  module _ (x : ℕ) (address_bound : x < 2 ^ 32) where
    network_bits : bit_and x (complement32 (2 ^ (32 - n) - 1)) ≡ x / 2 ^ (32 - n) * 2 ^ (32 - n)
    network_bits =
        ap (bit_and x) high_bits ∙ bit_and_high n (32 - n) x (omega (arith, two_pow_parts))

    broadcast_bits :
        bit_or x (2 ^ (32 - n) - 1) ≡ x / 2 ^ (32 - n) * 2 ^ (32 - n) + (2 ^ (32 - n) - 1)
    broadcast_bits = bit_or_low n (32 - n) x (omega (arith, two_pow_parts))

    network_swapped :
        (host : Endian)
        → bit_and
            (byteswap_on_little_endian host 4 x)
            (byteswap_on_little_endian host 4 (complement32 (2 ^ (32 - n) - 1)))
          ≡ byteswap_on_little_endian host 4 (x / 2 ^ (32 - n) * 2 ^ (32 - n))
    network_swapped little_endian =
        op-byteswap bit_and bit_and_split bit_and_bound x (complement32 (2 ^ (32 - n) - 1))
          address_bound (omega arith)
        ∙ ap (byteswap 4) network_bits
    network_swapped big_endian = network_bits

    broadcast_swapped :
        (host : Endian)
        → bit_or
            (byteswap_on_little_endian host 4 x)
            (byteswap_on_little_endian host 4 (2 ^ (32 - n) - 1))
          ≡ byteswap_on_little_endian host 4 (x / 2 ^ (32 - n) * 2 ^ (32 - n) + (2 ^ (32 - n) - 1))
    broadcast_swapped little_endian =
        op-byteswap bit_or bit_or_split bit_or_bound x (2 ^ (32 - n) - 1) address_bound
          (omega (arith, two_pow_bound, two_pow_least))
        ∙ ap (byteswap 4) broadcast_bits
    broadcast_swapped big_endian = broadcast_bits

  mask_swapped :
      (host : Endian)
      → complement32 (byteswap_on_little_endian host 4 (2 ^ (32 - n) - 1))
        ≡ byteswap_on_little_endian host 4 (2 ^ 32 - 2 ^ (32 - n))
  mask_swapped little_endian =
      complement-byteswap (2 ^ (32 - n) - 1) (omega (arith, two_pow_bound, two_pow_least))
      ∙ ap (byteswap 4) (omega (arith, two_pow_bound, two_pow_least))
  mask_swapped big_endian = omega (arith, two_pow_bound, two_pow_least)

  -- For a prefix of `n` bits from 2 to 32, and any order of bytes in the host: the network of an address has the
  -- first `n` bits of the address and zeros behind them, its broadcast address has ones behind them, the two keep the
  -- port, and the mask of the subnet has `n` ones in front of zeros.
  pub subnet_bits :
      (host : Endian) (x port : ℕ)
      → x < 2 ^ 32
      → (get_network_addr host n (ipv4_address host x port)
          ≡ ok (some (ipv4_address host (x / 2 ^ (32 - n) * 2 ^ (32 - n)) port)))
        × (get_broadcast_addr host n (ipv4_address host x port)
            ≡ ok (
                some
                  (ipv4_address host (x / 2 ^ (32 - n) * 2 ^ (32 - n) + (2 ^ (32 - n) - 1)) port)))
        × (get_subnet_mask host n ≡ ok (ipv4_address host (2 ^ 32 - 2 ^ (32 - n)) 0))
  unfolding get_network_addr get_broadcast_addr get_subnet_mask ipv4_address
  subnet_bits host x port h = (
    rw (le→ltb-false 32 n at_most, create_mask32_lem)
        (ap (found host port) (network_swapped x h host)),
    rw (le→ltb-false 32 n at_most, create_mask32_lem)
        (ap (found host port) (broadcast_swapped x h host)),
    rw (create_mask32_lem) (ap₂ mask_of (zero_port host) (mask_swapped host)),
  )
