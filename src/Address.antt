-- ===== src/Address.antt =====
-- East/src/Address.cc and East/include/Address.h: addresses, their order, and the masks of a subnet. A
-- `uint32_t` or `uint16_t` of a `sockaddr` is the number that the host reads there.
pub mod Masks
pub mod Subnet
pub mod Order
pub mod Host
mod Tests
use Prim.Native.Nat.{bit_and, bit_or}
use east.Common.{
  ℕ, zero, suc, ◌+◌, ◌-◌, ◌*◌, ◌/◌, ◌%◌, ◌^◌, min, Bool, true, false, not, ◌&&◌, Option, none, some,
  List, [], ◌∷◌, ◌++◌, Outcome, ok, throws, undefined, ◌>>=◌, if◌then◌else◌, ltb, leb, ◌==◌, length,
  take, get_elem?, set, replicate,
}
use east.ByteArray.{Endian, little_endian, big_endian}
use east.ByteArray.Ints.{byteswap}

-- `byteswapOnLittleEndian` of a number of `width` bytes.
abbrev pub byteswap_on_little_endian : Endian → ℕ → ℕ → ℕ
byteswap_on_little_endian little_endian width x = byteswap width x
byteswap_on_little_endian big_endian width x = x

-- `CreateMask<uint32_t>`, which computes in `int`: a shift by 32 or more is undefined, and so is one less than the
-- number that a shift by 31 gives.
unfoldable pub create_mask32 : ℕ → Outcome ℕ
create_mask32 bits =
    if leb 2 bits && leb bits 32 then ok (2 ^ (32 - bits) - 1) else throws undefined

-- `CreateMask<uint8_t>` for less than 8 bits.
unfoldable pub create_mask8 : ℕ → ℕ
create_mask8 bits = (2 ^ (8 - bits) - 1) % 256

-- `CountBitIsOne`, with a bound on the rounds of its loop.
unfoldable pub count_bit_is_one : ℕ → ℕ → ℕ
count_bit_is_one zero val = 0
count_bit_is_one (suc rounds) val =
    let rest = count_bit_is_one rounds (bit_and val (val - 1)) in if val == 0 then 0 else suc rest

-- `sin_port` and `sin_addr.s_addr`.
pub record Ipv4Address : Type 0 where
  pub sin_port : ℕ
  pub s_addr : ℕ

-- `~` of a `uint32_t`.
abbrev pub complement32 : ℕ → ℕ
complement32 x = 2 ^ 32 - 1 - x

module _ (host : Endian) where
  unfoldable pub ipv4_address : ℕ → ℕ → Ipv4Address
  ipv4_address address port = record {
    sin_port = byteswap_on_little_endian host 2 port;
    s_addr = byteswap_on_little_endian host 4 address;
  }

  -- The address in the order of the host, as `dump` takes it apart.
  unfoldable pub host_order : Ipv4Address → ℕ
  host_order a = byteswap_on_little_endian host 4 a.s_addr

  -- The three members give null above 32 bits, the last excepted.
  unfoldable pub get_broadcast_addr : ℕ → Ipv4Address → Outcome (Option Ipv4Address)
  get_broadcast_addr prefix_len a = if ltb 32 prefix_len then ok none else do
    mask ← create_mask32 prefix_len
    ok (some (record a { s_addr = bit_or a.s_addr (byteswap_on_little_endian host 4 mask) }))

  unfoldable pub get_network_addr : ℕ → Ipv4Address → Outcome (Option Ipv4Address)
  get_network_addr prefix_len a = if ltb 32 prefix_len then ok none else do
    mask ← create_mask32 prefix_len
    ok (
        some (record a {
          s_addr = bit_and a.s_addr (byteswap_on_little_endian host 4 (complement32 mask));
        }))

  unfoldable pub get_subnet_mask : ℕ → Outcome Ipv4Address
  get_subnet_mask prefix_len = do
    mask ← create_mask32 prefix_len
    ok (record { sin_port = 0; s_addr = complement32 (byteswap_on_little_endian host 4 mask) })

  unfoldable pub get_port : Ipv4Address → ℕ
  get_port a = byteswap_on_little_endian host 2 a.sin_port

  unfoldable pub set_port : ℕ → Ipv4Address → Ipv4Address
  set_port port a = record a { sin_port = byteswap_on_little_endian host 2 port }

-- The 16 bytes of an IPv6 address: byte `i` changed. Past the end it is undefined.
abbrev pub with_byte : ℕ → (ℕ → ℕ) → List ℕ → Outcome (List ℕ)
with_byte i f bytes = written (get_elem? bytes i)
  where
    written : Option ℕ → Outcome (List ℕ)
    written none = throws undefined
    written (some b) = ok (set bytes i (f b))

-- The loop that fills the bytes from `at` on.
abbrev pub fill_from : ℕ → ℕ → List ℕ → List ℕ
fill_from at b bytes = take at bytes ++ replicate (length bytes - at) b

-- The loop that fills the bytes in front of `at`.
abbrev pub fill_to : ℕ → ℕ → List ℕ → List ℕ
fill_to zero b bytes = bytes
fill_to (suc at) b [] = []
fill_to (suc at) b (x ∷ bytes) = b ∷ fill_to at b bytes

unfoldable pub get_broadcast_addr6 : ℕ → List ℕ → Outcome (List ℕ)
get_broadcast_addr6 prefix_len bytes = do
  bytes' ← with_byte (prefix_len / 8) (λ b. bit_or b (create_mask8 (prefix_len % 8))) bytes
  ok (fill_from (prefix_len / 8 + 1) 255 bytes')

unfoldable pub get_network_addr6 : ℕ → List ℕ → Outcome (List ℕ)
get_network_addr6 prefix_len bytes = do
  bytes' ← with_byte (prefix_len / 8) (λ b. bit_or b (create_mask8 (prefix_len % 8))) bytes
  ok (fill_from (prefix_len / 8 + 1) 0 bytes')

unfoldable pub get_subnet_mask6 : ℕ → Outcome (List ℕ)
get_subnet_mask6 prefix_len = do
  bytes ← with_byte (prefix_len / 8) (λ b. 255 - create_mask8 (prefix_len % 8)) (replicate 16 0)
  ok (fill_to (prefix_len / 8) 255 bytes)

-- `memcmp`: less, equal or greater.
pub data Comparison : Type 0 where
  below same above : Comparison

abbrev pub memcmp : ℕ → List ℕ → List ℕ → Comparison
memcmp zero xs ys = same
memcmp (suc n) [] ys = same
memcmp (suc n) (x ∷ xs) [] = same
memcmp (suc n) (x ∷ xs) (y ∷ ys) =
    let rest = memcmp n xs ys in if ltb x y then below else if ltb y x then above else rest

abbrev pub is_less : Comparison → Bool → Bool
is_less below shorter = true
is_less above shorter = false
is_less same shorter = shorter

abbrev pub is_same : Comparison → Bool
is_same same = true
is_same _ = false

-- `operator<` and `operator==` of addresses, by the bytes that `getAddr` and `getAddrLen` give.
unfoldable pub less : List ℕ → List ℕ → Bool
less l r = is_less (memcmp (min (length l) (length r)) l r) (ltb (length l) (length r))

unfoldable pub equal : List ℕ → List ℕ → Bool
equal l r = (length l == length r) && is_same (memcmp (length l) l r)
