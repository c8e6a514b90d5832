-- ===== src/ByteArray/Buffers.antt =====
-- The iovec and file members of East/src/ByteArray.cc. An iovec is a block, a position in it and a
-- length. A file is the list of its bytes; opening it is the caller's `opened`.
pub mod Gather
pub mod Files
use east.Common.{
  ℕ, zero, suc, ◌+◌, ◌-◌, ◌*◌, ◌/◌, ◌%◌, Bool, true, false, List, [], ◌∷◌, ◌++◌, length, take, drop,
  if◌then◌else◌, ltb, leb, ◌==◌, Outcome, ok, throws, undefined, ◌>>=◌,
}
use east.Common.Words.{sub64, add64}
use east.Common.Slices.{slice}
use east.ByteArray.{ByteArray, Node, get_readable_size, in_block, add_capacity, write}

pub record Iovec : Type 0 where
  pub block : ℕ
  pub at : ℕ
  pub len : ℕ

-- The loop of all three members, from block number `block` on.
unfoldable pub buffers_loop : ℕ → ℕ → ℕ → List Node → Outcome (List Iovec)
buffers_loop block at len [] = throws undefined
buffers_loop block at len (node ∷ next) =
    let here = sub64 (length node) at in
    let rest = buffers_loop (suc block) 0 (sub64 len here) next in
    if leb len here
    then ok (record { block = block; at = at; len = len } ∷ [])
    else do more ← rest; ok (record { block = block; at = at; len = here } ∷ more)

abbrev pub clamp_readable : ByteArray → ℕ → ℕ
clamp_readable b len = if ltb (get_readable_size b) len then get_readable_size b else len

-- `getReadableBuffers(buffers, len)`: the iovecs that it appends, and the length it returns.
unfoldable pub get_readable_buffers : ℕ → ByteArray → Outcome (List Iovec × ℕ)
get_readable_buffers len b =
    let len' = clamp_readable b len in
    if len' == 0 then ok ([], 0) else do
      at ← in_block b b.offset
      buffers ← buffers_loop b.cur at len' (drop b.cur b.nodes)
      ok (buffers, len')

-- `getReadableBuffers(buffers, len, offset)`. The length is cut to what is readable from the
-- position of the array, not from `offset`.
unfoldable pub get_readable_buffers_at : ℕ → ℕ → ByteArray → Outcome (List Iovec × ℕ)
get_readable_buffers_at len offset b =
    let len' = clamp_readable b len in
    if len' == 0 then ok ([], 0) else do
      at ← in_block b offset
      let count = offset / b.block_size
      buffers ← buffers_loop count at len' (drop count b.nodes)
      ok (buffers, len')

-- `getWriteableBuffers`. Behind the first block the loop takes the size of the block of `m_cur` for
-- that of the next ones; all blocks are as long as `first` here.
unfoldable pub writeable_loop : ℕ → ℕ → ℕ → ℕ → List Node → Outcome (List Iovec)
writeable_loop first block at len [] = throws undefined
writeable_loop first block at len (node ∷ next) =
    let here = sub64 first at in
    let rest = writeable_loop first (suc block) 0 (sub64 len here) next in
    if leb len here
    then ok (record { block = block; at = at; len = len } ∷ [])
    else do more ← rest; ok (record { block = block; at = at; len = here } ∷ more)

abbrev pub first_length : List Node → ℕ
first_length [] = 0
first_length (node ∷ next) = length node

unfoldable pub get_writeable_buffers : ℕ → ByteArray → Outcome (List Iovec × ℕ × ByteArray)
get_writeable_buffers len b = if len == 0 then ok ([], 0, b) else do
  b' ← add_capacity len b
  at ← in_block b' b'.offset
  let from = drop b'.cur b'.nodes
  buffers ← writeable_loop (first_length from) b'.cur at len from
  ok (buffers, len, b')

-- The loop of `writeToFile`: the bytes that it hands to the stream.
unfoldable pub file_loop : ℕ → ℕ → ℕ → List Node → Outcome (List ℕ)
file_loop bs offset read_size [] = if read_size == 0 then ok [] else throws undefined
file_loop bs offset read_size (node ∷ next) =
    let at = offset % bs in
    let len = if ltb bs (read_size + at) then bs - at else read_size in
    let rest = file_loop bs (offset + len) (read_size - len) next in
    if read_size == 0
    then ok []
    else if bs == 0
    then throws undefined
    else do more ← rest; ok (slice node at len ++ more)

unfoldable pub write_to_file : Bool → ByteArray → Outcome (Bool × List ℕ)
write_to_file opened b =
    if opened
    then (do
      bytes ← file_loop b.block_size b.offset (get_readable_size b) (drop b.cur b.nodes)
      ok (true, bytes))
    else ok (false, [])

-- The loop of `readFromFile`, with the rounds that are left. `ifs.read` of a whole block leaves
-- `eof` unset, also at the very end of the file.
unfoldable pub load_loop : ℕ → ℕ → List ℕ → ByteArray → Outcome ByteArray
load_loop zero bs content b = throws undefined
load_loop (suc rounds) bs content b = do
  b' ← write (take bs content) b
  elim (ltb (length content) bs) [ true ↦ ok b' | false ↦ load_loop rounds bs (drop bs content) b' ]

-- A round with a block size of 1 or more takes a byte at least or is the last.
unfoldable pub read_from_file : Bool → List ℕ → ByteArray → Outcome (Bool × ByteArray)
read_from_file opened content b =
    if opened
    then (do b' ← load_loop (suc (length content)) b.block_size content b; ok (true, b'))
    else ok (false, b)
