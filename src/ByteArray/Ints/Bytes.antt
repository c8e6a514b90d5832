-- ===== src/ByteArray/Ints/Bytes.antt =====
-- The bytes of an integer, in either order.
use mathlib.Core.List.{reverse, reverse-reverse, reverse-append}
use mathlib.Core.Path.{ap₂, subst}
use native.Mathlib.Nat.{pow-suc}
use east.Common.{
  ℕ, zero, suc, ◌/◌, ◌^◌, ◌<◌, ◌≡◌, refl, sym, ap, ◌∙◌, List, [], ◌∷◌, ◌++◌, length, length-append,
  All, arith, if◌then◌else◌,
}
use east.ByteArray.{Endian, little_endian, big_endian}
use east.ByteArray.Ints.{to_bytes_le, of_bytes_le, to_memory, of_memory, byteswap, same_order}

abbrev pub AllBytes : List ℕ → Type 0
AllBytes = All (λ x. x < 256)

pub length-to_bytes_le : (w x : ℕ) → length (to_bytes_le w x) ≡ w
unfolding to_bytes_le
length-to_bytes_le zero x = refl
length-to_bytes_le (suc w) x = ap suc (length-to_bytes_le w (x / 256))

pub of-to_bytes_le : (w x : ℕ) → x < 256 ^ w → of_bytes_le (to_bytes_le w x) ≡ x
unfolding to_bytes_le of_bytes_le
of-to_bytes_le zero x h = omega arith
of-to_bytes_le (suc w) x h =
    omega (arith, of-to_bytes_le w (x / 256) (omega (arith, pow-suc 256 w)))

to_bytes_le-AllBytes : (w x : ℕ) → AllBytes (to_bytes_le w x)
unfolding to_bytes_le
to_bytes_le-AllBytes zero x = tt
to_bytes_le-AllBytes (suc w) x = (omega arith, to_bytes_le-AllBytes w (x / 256))

to-of_bytes_le : (bs : List ℕ) → AllBytes bs → to_bytes_le (length bs) (of_bytes_le bs) ≡ bs
unfolding to_bytes_le of_bytes_le
to-of_bytes_le [] h = refl
to-of_bytes_le (b ∷ bs) h =
    ap₂ ◌∷◌ (omega (arith, h.0))
      (ap (to_bytes_le (length bs)) (omega (arith, h.0)) ∙ to-of_bytes_le bs h.1)

pub length-reverse : (xs : List ℕ) → length (reverse xs) ≡ length xs
length-reverse [] = refl
length-reverse (x ∷ xs) = omega (
  arith,
  ap length (reverse-append (x ∷ []) xs),
  length-append (reverse xs) (x ∷ []),
  length-reverse xs,
)

All-append : (xs ys : List ℕ) → AllBytes xs → AllBytes ys → AllBytes (xs ++ ys)
All-append [] ys h k = k
All-append (x ∷ xs) ys h k = (h.0, All-append xs ys h.1 k)

All-reverse : (xs : List ℕ) → AllBytes xs → AllBytes (reverse xs)
All-reverse [] h = tt
All-reverse (x ∷ xs) h =
    subst AllBytes (sym (reverse-append (x ∷ []) xs))
      (All-append (reverse xs) (x ∷ []) (All-reverse xs h.1) (h.0, tt))

-- `byteswap` turns the bytes round.
to_bytes_le-byteswap : (w x : ℕ) → to_bytes_le w (byteswap w x) ≡ reverse (to_bytes_le w x)
unfolding byteswap
to_bytes_le-byteswap w x =
    ap (λ k. to_bytes_le k (of_bytes_le (reverse (to_bytes_le w x))))
      (sym (length-reverse (to_bytes_le w x) ∙ length-to_bytes_le w x))
    ∙ to-of_bytes_le (reverse (to_bytes_le w x))
        (All-reverse (to_bytes_le w x) (to_bytes_le-AllBytes w x))

byteswap_twice : (w x : ℕ) → x < 256 ^ w → byteswap w (byteswap w x) ≡ x
unfolding byteswap
byteswap_twice w x h =
    ap (λ l. of_bytes_le (reverse l)) (to_bytes_le-byteswap w x)
    ∙ ap of_bytes_le (reverse-reverse (to_bytes_le w x))
    ∙ of-to_bytes_le w x h

pub length-to_memory : (e : Endian) (w x : ℕ) → length (to_memory e w x) ≡ w
unfolding to_memory
length-to_memory little_endian w x = length-to_bytes_le w x
length-to_memory big_endian w x = length-reverse (to_bytes_le w x) ∙ length-to_bytes_le w x

-- What lies in the memory of a host is what it reads back.
pub of-to_memory : (e : Endian) (w x : ℕ) → x < 256 ^ w → of_memory e (to_memory e w x) ≡ x
unfolding to_memory of_memory
of-to_memory little_endian w x h = of-to_bytes_le w x h
of-to_memory big_endian w x h =
    ap of_bytes_le (reverse-reverse (to_bytes_le w x)) ∙ of-to_bytes_le w x h

-- The bytes that a host stores for a value that it swapped, if the orders differ.
pub to_memory_swapped :
    (e host : Endian) (w x : ℕ)
    → to_memory host w (if same_order e host then x else byteswap w x) ≡ to_memory e w x
unfolding to_memory
to_memory_swapped little_endian little_endian w x = refl
to_memory_swapped big_endian big_endian w x = refl
to_memory_swapped little_endian big_endian w x =
    ap reverse (to_bytes_le-byteswap w x) ∙ reverse-reverse (to_bytes_le w x)
to_memory_swapped big_endian little_endian w x = to_bytes_le-byteswap w x

-- The value that a host reads from such bytes and swaps back.
pub of_memory_swapped :
    (e host : Endian) (w x : ℕ)
    → x < 256 ^ w
    → (if same_order e host
        then of_memory host (to_memory e w x)
        else byteswap w (of_memory host (to_memory e w x)))
      ≡ x
unfolding to_memory of_memory byteswap
of_memory_swapped little_endian little_endian w x h = of-to_bytes_le w x h
of_memory_swapped big_endian big_endian w x h =
    ap of_bytes_le (reverse-reverse (to_bytes_le w x)) ∙ of-to_bytes_le w x h
of_memory_swapped little_endian big_endian w x h = byteswap_twice w x h
of_memory_swapped big_endian little_endian w x h = byteswap_twice w x h
