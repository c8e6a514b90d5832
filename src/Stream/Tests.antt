-- ===== src/Stream/Tests.antt =====
-- Streams on concrete inputs.
use east.Common.{◌≡◌, refl, ◌^◌, arith, false, [], ◌∷◌}
use east.Common.Texts.{codes}
use east.Stream.{Channel, minus_one, to_int, is_positive, read_fix_size}
use east.Stream.Whole.{Delivers, Reads, read_fix_size_lem}

-- Five bytes, which come one or two at a time.
abbrev pieces : Channel
pieces = record { sizes = 1 ∷ 2 ∷ 1 ∷ 9 ∷ 1 ∷ []; input = codes "abcde" }

pieces-Delivers : Delivers 4 pieces
pieces-Delivers = record {
  positive = (omega arith, (omega arith, (omega arith, (omega arith, (omega arith, tt)))));
  reads = omega arith;
  bytes = omega arith;
}

read_fix_size_lem_example : Reads 4 4 (codes "abcde") (read_fix_size 4 pieces)
read_fix_size_lem_example = read_fix_size_lem 4 pieces pieces-Delivers

-- A peer that closes too early.
closed_run :
    (read_fix_size 4 (record { sizes = 1 ∷ 0 ∷ []; input = codes "abcde" })).result ≡ minus_one
unfolding read_fix_size
closed_run = refl

-- Of 2 ^ 31 bytes the `int` is negative.
too_many_run : is_positive (to_int (2 ^ 31)) ≡ false
unfolding is_positive to_int
too_many_run = refl
