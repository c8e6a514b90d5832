-- ===== src/ByteArray.antt =====
-- East/src/ByteArray.cc: the chain of memory blocks with a read and write position, and the
-- operations on raw bytes.
pub mod Blocks
pub mod Valid
pub mod Grow
pub mod Tape
pub mod Place
pub mod Refine
pub mod Seek
pub mod Reading
pub mod Writing
pub mod Ints
pub mod Varint
pub mod Strings
pub mod Buffers
pub mod Contract
pub mod Whole
mod Tests
use east.Common.{
  ℕ, zero, suc, ◌+◌, ◌/◌, ◌%◌, ◌^◌, ◌≡◌, Bool, true, false, List, [], ◌∷◌, ◌++◌, length, take, drop,
  replicate, concat, if◌then◌else◌, ltb, leb, ◌==◌, Outcome, ok, throws, out_of_range, undefined,
  ◌>>=◌,
}
use east.Common.Words.{add64, sub64}
use east.Common.Slices.{overwrite, slice}

-- EAST_LITTLE_ENDIAN and EAST_BIG_ENDIAN.
pub data Endian : Type 0 where
  little_endian big_endian : Endian

abbrev pub endian_code : Endian → ℕ
endian_code little_endian = 1
endian_code big_endian = 2

-- A block is the list of its bytes, and `size` is its length. The node list is the chain from
-- `m_root` along `next`. `cur` is how far `m_cur` is from the root: at the length of the list it is
-- the null pointer.
abbrev pub Node : Type 0
Node = List ℕ

pub record ByteArray : Type 0 where
  pub block_size : ℕ
  pub offset : ℕ
  pub size : ℕ
  pub capacity : ℕ
  pub endian : Endian
  pub nodes : List Node
  pub cur : ℕ

-- What `new char[s]` leaves in a cell: no byte, since no program may rely on its value.
abbrev pub uninit : ℕ
uninit = 256

abbrev pub new_node : ℕ → Node
new_node s = replicate s uninit

-- The constructor. It sets the size to the size of the first block.
unfoldable pub init : ℕ → ByteArray
init base_size = record {
  block_size = base_size;
  offset = 0;
  size = base_size;
  capacity = base_size;
  endian = big_endian;
  nodes = new_node base_size ∷ [];
  cur = 0;
}

unfoldable pub clear : ByteArray → Outcome ByteArray
clear b = elim b.nodes [
  | [] ↦ throws undefined
  | root ∷ rest ↦
      ok (record b { offset = 0; size = 0; capacity = b.block_size; nodes = root ∷ []; cur = 0 })
]

unfoldable pub get_readable_size : ByteArray → ℕ
get_readable_size b = sub64 b.size b.offset

unfoldable pub get_writeable_capacity : ByteArray → ℕ
get_writeable_capacity b = sub64 b.capacity b.offset

unfoldable pub get_offset : ByteArray → ℕ
get_offset b = b.offset

unfoldable pub get_size : ByteArray → ℕ
get_size b = b.size

unfoldable pub get_base_size : ByteArray → ℕ
get_base_size b = b.block_size

-- `m_endian` is converted to `bool`: any code but 0 is true.
unfoldable pub is_little_endian : ByteArray → Bool
is_little_endian b = ltb 0 (endian_code b.endian)

unfoldable pub set_little_endian : Bool → ByteArray → ByteArray
set_little_endian little b = record b { endian = if little then little_endian else big_endian }

-- `x % m_block_size`, which is undefined for a block size of 0.
unfoldable pub in_block : ByteArray → ℕ → Outcome ℕ
in_block b x = if b.block_size == 0 then throws undefined else ok (x % b.block_size)

-- The loop of `addCapacity`: `count` new blocks behind the last.
unfoldable pub grow : ℕ → ℕ → List Node → ℕ → List Node × ℕ
grow zero bs nodes capacity = (nodes, capacity)
grow (suc count) bs nodes capacity = grow count bs (nodes ++ (new_node bs ∷ [])) (add64 capacity bs)

-- `int count` is the quotient modulo 2 ^ 32. A negative one would be counted down to an overflow.
unfoldable pub grow_by : ℕ → ℕ → ByteArray → Outcome ByteArray
grow_by quotient old_cap b =
    let count = quotient % 2 ^ 32 in
    let (nodes, capacity) = grow count b.block_size b.nodes b.capacity in
    let cur = if old_cap == 0 then length b.nodes else b.cur in
    if leb (2 ^ 31) count
    then throws undefined
    else ok (record b { nodes = nodes; capacity = capacity; cur = cur })

unfoldable pub add_capacity : ℕ → ByteArray → Outcome ByteArray
add_capacity size b =
    let old_cap = get_writeable_capacity b in
    let need = sub64 (add64 (sub64 size old_cap) b.block_size) 1 in
    if size == 0
    then ok b
    else if leb size old_cap
    then ok b
    else if b.block_size == 0
    then throws undefined
    else grow_by (need / b.block_size) old_cap b

-- The loop of `write` from `m_cur` on: the position in the current block, `m_offset`, the bytes
-- still to write, and the blocks from `m_cur` on. It returns those blocks, the number of steps
-- that `m_cur` took along `next`, and `m_offset`. Reading past the last block is a null pointer.
unfoldable pub write_loop : ℕ → ℕ → List ℕ → List Node → Outcome (List Node × ℕ × ℕ)
write_loop at offset bytes [] = throws undefined
write_loop at offset bytes (node ∷ next) =
    let writeable = sub64 (length node) at in
    let here = if length node == add64 at (length bytes) then 1 else 0 in
    let rest = write_loop 0 (add64 offset writeable) (drop writeable bytes) next in
    if leb (length bytes) writeable
    then ok (overwrite node at bytes ∷ next, here, add64 offset (length bytes))
    else do
      (nodes, steps, offset') ← rest
      ok (overwrite node at (take writeable bytes) ∷ nodes, suc steps, offset')

-- `write(buf, size)`: the bytes are `buf[0 .. size)`.
unfoldable pub write : List ℕ → ByteArray → Outcome ByteArray
write bytes b = if length bytes == 0 then ok b else do
  b' ← add_capacity (length bytes) b
  at ← in_block b' b'.offset
  (nodes, steps, offset) ← write_loop at b'.offset bytes (drop b'.cur b'.nodes)
  ok (record b' {
    nodes = take b'.cur b'.nodes ++ nodes;
    cur = b'.cur + steps;
    offset = offset;
    size = if ltb b'.size offset then offset else b'.size;
  })

-- The loop of both reads: it returns the bytes copied out, the steps of `m_cur`, and the offset.
unfoldable pub read_loop : ℕ → ℕ → ℕ → List Node → Outcome (List ℕ × ℕ × ℕ)
read_loop at offset size [] = throws undefined
read_loop at offset size (node ∷ next) =
    let readable = sub64 (length node) at in
    let here = if add64 at size == length node then 1 else 0 in
    let rest = read_loop 0 (add64 offset readable) (sub64 size readable) next in
    if size == 0
    then ok ([], 0, offset)
    else if leb size readable
    then ok (slice node at size, here, add64 offset size)
    else do (bytes, steps, offset') ← rest; ok (slice node at readable ++ bytes, suc steps, offset')

-- `read(buf, size)`, which moves the position. The test against `m_cur->size` comes before that
-- of the size, so a null `m_cur` is undefined for a size of 0 too.
unfoldable pub read : ℕ → ByteArray → Outcome (List ℕ × ByteArray)
read size b = if ltb (get_readable_size b) size then throws out_of_range else do
  at ← in_block b b.offset
  (bytes, steps, offset) ← read_loop at b.offset size (drop b.cur b.nodes)
  ok (bytes, record b { cur = b.cur + steps; offset = offset })

-- `read(buf, size, offset) const`. It starts in the block of `m_cur`, whatever the offset.
unfoldable pub read_at : ℕ → ℕ → ByteArray → Outcome (List ℕ)
read_at size offset b = if ltb (sub64 b.size offset) size then throws out_of_range else do
  at ← in_block b offset
  (bytes, steps, offset') ← read_loop at offset size (drop b.cur b.nodes)
  ok bytes

-- The loop of `setOffset` from the root, which returns how far `m_cur` went. The test behind the
-- loop, `offset == m_cur->size`, never holds: the loop ends at `offset < m_cur->size`.
unfoldable pub seek_loop : ℕ → List Node → Outcome ℕ
seek_loop offset [] = throws undefined
seek_loop offset (node ∷ next) =
    let rest = seek_loop (sub64 offset (length node)) next in
    if leb (length node) offset
    then (do steps ← rest; ok (suc steps))
    else if offset == length node
    then ok 1
    else ok 0

unfoldable pub set_offset : ℕ → ByteArray → Outcome ByteArray
set_offset offset b = if ltb b.capacity offset then throws out_of_range else do
  cur ← seek_loop offset b.nodes
  ok (record b { offset = offset; size = if ltb b.size offset then offset else b.size; cur = cur })

unfoldable pub to_string : ByteArray → Outcome (List ℕ)
to_string b = if get_readable_size b == 0 then ok [] else read_at (get_readable_size b) b.offset b
