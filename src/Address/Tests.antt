-- ===== src/Address/Tests.antt =====
-- The addresses on concrete inputs.
use east.Common.{ℕ, ◌≡◌, refl, arith, true, none, some, List, [], ◌∷◌, ok, throws, undefined}
use east.ByteArray.{little_endian}
use east.Address.{
  create_mask32, create_mask8, count_bit_is_one, ipv4_address, get_network_addr, get_broadcast_addr,
  get_subnet_mask, get_network_addr6, get_broadcast_addr6, get_subnet_mask6, less,
}
use east.Address.Subnet.{subnet_bits}
use east.Address.Host.{split_host}
use east.Address.Host.Forms.{literal_port, print, split_form}

-- 192.168.1.77 in a subnet of 24 bits.
abbrev home : ℕ
home = 0xc0a8014d

subnet_bits_example :
    (get_network_addr little_endian 24 (ipv4_address little_endian home 80)
      ≡ ok (some (ipv4_address little_endian 0xc0a80100 80)))
    × (get_broadcast_addr little_endian 24 (ipv4_address little_endian home 80)
        ≡ ok (some (ipv4_address little_endian 0xc0a801ff 80)))
    × (get_subnet_mask little_endian 24 ≡ ok (ipv4_address little_endian 0xffffff00 0))
subnet_bits_example = subnet_bits 24 (omega arith) (omega arith) little_endian home 80 (omega arith)

no_prefix_run : create_mask32 0 ≡ throws undefined
unfolding create_mask32
no_prefix_run = refl

count_run : count_bit_is_one 33 0xffffff00 ≡ 24
unfolding count_bit_is_one
count_run = refl

abbrev loopback6 : List ℕ
loopback6 = 0xfe ∷ 0x80 ∷ 0 ∷ 0 ∷ 0 ∷ 0 ∷ 0 ∷ 0 ∷ 1 ∷ 2 ∷ 3 ∷ 4 ∷ 5 ∷ 6 ∷ 7 ∷ 8 ∷ []

-- The host bits of the byte that the prefix ends in are set, not cleared.
network6_run :
    get_network_addr6 68 loopback6
    ≡ ok (0xfe ∷ 0x80 ∷ 0 ∷ 0 ∷ 0 ∷ 0 ∷ 0 ∷ 0 ∷ 15 ∷ 0 ∷ 0 ∷ 0 ∷ 0 ∷ 0 ∷ 0 ∷ 0 ∷ [])
unfolding get_network_addr6 create_mask8
network6_run = refl

whole_prefix_run : get_broadcast_addr6 128 loopback6 ≡ throws undefined
unfolding get_broadcast_addr6
whole_prefix_run = refl

mask6_run :
    get_subnet_mask6 12
    ≡ ok (255 ∷ 240 ∷ 0 ∷ 0 ∷ 0 ∷ 0 ∷ 0 ∷ 0 ∷ 0 ∷ 0 ∷ 0 ∷ 0 ∷ 0 ∷ 0 ∷ 0 ∷ 0 ∷ [])
unfolding get_subnet_mask6 create_mask8
mask6_run = refl

abbrev low : List ℕ
low = 1 ∷ []

abbrev high : List ℕ
high = 2 ∷ []

-- "[::1]:80".
split_form_example :
    split_host (print (literal_port 58 (58 ∷ 49 ∷ []) (56 ∷ 48 ∷ [])))
    ≡ ok (58 ∷ 58 ∷ 49 ∷ [], some (56 ∷ 48 ∷ []))
split_form_example =
    split_form (literal_port 58 (58 ∷ 49 ∷ []) (56 ∷ 48 ∷ []))
      ((refl, (refl, (refl, tt))), (refl, (refl, tt)))

-- "a:b", whose last code is not searched for a colon, and "".
split_host_run : split_host (97 ∷ 58 ∷ []) ≡ ok (97 ∷ 58 ∷ [], none)
unfolding split_host
split_host_run = refl

empty_host_run : split_host [] ≡ throws undefined
unfolding split_host
empty_host_run = refl

-- "::1".
bare_ipv6_run : split_host (58 ∷ 58 ∷ 49 ∷ []) ≡ ok (58 ∷ 58 ∷ 49 ∷ [], some (58 ∷ 58 ∷ 49 ∷ []))
unfolding split_host
bare_ipv6_run = refl

low_run : less low high ≡ true
unfolding less
low_run = refl
