-- ===== src/Http/Receiving/Bodies.antt =====
-- The bodies that `recvResponse` and `recvRequest` of East/http leave in a message.
use native.Mathlib.Decide.{dec_le, dec_lt, ℕ_discrete}
use east.Common.{
  ℕ, zero, suc, ◌+◌, ◌-◌, ◌^◌, ◌%◌, ◌≤◌, ◌<◌, ◌≡◌, ◌⊎◌, inl, inr, refl, ap, ◌∙◌, arith, true, false,
  none, some, List, ◌++◌, length, take, drop, replicate, ◌==◌, ok, throws, undefined, length-append,
  length-take, le→leb, lt→leb-false, lt→ltb, le→ltb-false, pos-ne_zero,
}
use east.Stream.{Channel, Fixed, is_positive, read_fix_size}
use east.Stream.Whole.{Delivers, read_fix_size_lem}
use east.Http.Receiving.{response_body, put_front, request_read, request_body}

small_positive : (n : ℕ) → 1 ≤ n → n < 2 ^ 31 → is_positive n ≡ true
unfolding is_positive
small_positive n h h' = ground arith

negative : (n : ℕ) → 2 ^ 31 ≤ n → is_positive n ≡ false
unfolding is_positive
negative n h = ground arith

small_mod : (n : ℕ) → n ≤ 32 → n % 2 ^ 32 ≡ n
small_mod n h = omega arith

zero_length : (n : ℕ) → n ≡ 0 → is_positive n ≡ false
unfolding is_positive
zero_length n h = ground arith

-- What `recvResponse` does with the body of a response whose head leaves the `buffered`.
pub data Receives (body_len : ℕ) (buffered : List ℕ) (c : Channel) : Type 0 where
  whole :
      body_len ≤ length buffered
      → response_body body_len buffered c ≡ some none
      → Receives body_len buffered c
  set :
      length buffered < body_len
      → 1 ≤ (body_len - length buffered) % 2 ^ 32
      → (body_len - length buffered) % 2 ^ 32 < 2 ^ 31
      → response_body body_len buffered c
        ≡ some (some (buffered ++ take (body_len - length buffered) c.input))
      → Receives body_len buffered c
  closed :
      length buffered < body_len
      → ((body_len - length buffered) % 2 ^ 32 ≡ 0)
        ⊎ (2 ^ 31 ≤ (body_len - length buffered) % 2 ^ 32)
      → response_body body_len buffered c ≡ none
      → Receives body_len buffered c

-- With a channel that delivers, which is one whose reads each give a byte, as many reads as are wanted bytes, and so
-- many bytes: a body that the buffer holds already, whole, is not set in the response, whatever its
-- length. Any other is read, and set to what the buffer holds and the bytes after it, as many as the length says, if
-- the low 32 bits of the number of these bytes are positive as an `int`; if they are 0 or negative, as for 2 ^ 31
-- bytes, the stream is closed and there is no response although all bytes arrived.
pub response_body_lem :
    (body_len : ℕ) (buffered : List ℕ) (c : Channel)
    → Delivers (body_len - length buffered) c
    → Receives body_len buffered c
unfolding response_body
response_body_lem body_len buffered c d = elim (dec_le body_len (length buffered)) [
  | yes h ↦ whole h (rw (le→leb body_len (length buffered) h) refl)
  | no h ↦
      let left = body_len - length buffered in
      let r = read_fix_size_lem left c d in
      elim (ℕ_discrete (left % 2 ^ 32) 0) [
        | yes z ↦ closed (omega arith) (inl z) (
            rw
              (
                lt→leb-false body_len (length buffered) (omega arith),
                r.result,
                zero_length (left % 2 ^ 32) z,
              )
              refl)
        | no pos ↦ elim (dec_lt (left % 2 ^ 32) (2 ^ 31)) [
          | yes small ↦ set (omega arith) (omega arith) small (
              rw
                (
                  lt→leb-false body_len (length buffered) (omega arith),
                  r.result,
                  r.got,
                  small_positive (left % 2 ^ 32) (omega arith) small,
                )
                refl)
          | no large ↦ closed (omega arith) (inr (omega arith)) (
              rw
                (
                  lt→leb-false body_len (length buffered) (omega arith),
                  r.result,
                  negative (left % 2 ^ 32) (omega arith),
                )
                refl)
        ]
      ]
]

eq_test : (a b : ℕ) → a < b → (a == b) ≡ false
eq_test a b h = ground arith

read_length : (n : ℕ) (c : Channel) → Delivers n c → length (read_fix_size n c).got ≡ n
read_length n c d =
    ap length (read_fix_size_lem n c d).got ∙ length-take n c.input ∙ omega (arith, d.bytes)

drop-replicate : (k n v : ℕ) → k ≤ n → drop k (replicate n v) ≡ replicate (n - k) v
drop-replicate zero n v h = ap (λ m. replicate m v) (omega arith)
drop-replicate (suc k) zero v h = absurd (omega arith)
drop-replicate (suc k) (suc n) v h =
    drop-replicate k n v (omega arith) ∙ ap (λ m. replicate m v) (omega arith)

put_front_lem :
    (body_len : ℕ) (bytes : List ℕ)
    → length bytes ≡ body_len
    → body_len ≤ 32
    → put_front body_len bytes ≡ bytes ++ replicate (32 - body_len) (body_len % 256)
put_front_lem body_len bytes e h =
    ap (λ l. bytes ++ l)
      (drop-replicate (length bytes) 32 (body_len % 256) (omega arith)
        ∙ ap (λ m. replicate (32 - m) (body_len % 256)) e)

module _ (body_len : ℕ) (buffered : List ℕ) (c : Channel)
    (d : Delivers (body_len - length buffered) c) where
  abbrev arrived : List ℕ
  arrived = buffered ++ take (body_len - length buffered) c.input

  arrived-length : length buffered ≤ body_len → length arrived ≡ body_len
  arrived-length h = omega (
    arith,
    length-append buffered (take (body_len - length buffered) c.input),
    length-take (body_len - length buffered) c.input,
    d.bytes,
  )

  abbrev reading : Fixed
  reading = read_fix_size (body_len - length buffered) c

  total_length : length buffered ≤ body_len → length buffered + length reading.got ≡ body_len
  total_length h = omega (arith, read_length (body_len - length buffered) c d)

  request_read_long :
      length buffered ≤ body_len
      → 32 < body_len
      → request_read body_len buffered reading ≡ throws undefined
  request_read_long h h' =
      rw (lt→ltb 32 (length buffered + length reading.got) (omega (arith, total_length h))) refl

  request_read_short :
      length buffered < body_len
      → body_len ≤ 32
      → request_read body_len buffered reading
        ≡ ok (some (some (arrived ++ replicate (32 - body_len) (body_len % 256))))
  request_read_short h h' =
      let left = body_len - length buffered in
      let r = read_fix_size_lem left c d in
      rw
        (
          le→ltb-false 32 (length buffered + length reading.got)
              (omega (arith, total_length (omega arith))),
          r.result,
          small_mod left (omega arith),
          small_positive left (omega arith) (omega arith),
          r.got,
        )
        (ap (λ l. ok (some (some l)))
          (put_front_lem body_len arrived (arrived-length (omega arith)) h'))

  long_body :
      1 ≤ body_len
      → length buffered ≤ body_len
      → 32 < body_len
      → request_body body_len buffered c ≡ throws undefined
  unfolding request_body
  long_body pos h h' = elim (dec_lt 32 (length buffered)) [
    | yes over ↦
        rw
          (
            pos-ne_zero body_len pos,
            le→ltb-false body_len (length buffered) h,
            lt→ltb 32 (length buffered) over,
          )
          refl
    | no under ↦
        rw
          (
            pos-ne_zero body_len pos,
            le→ltb-false body_len (length buffered) h,
            le→ltb-false 32 (length buffered) (omega arith),
            eq_test (length buffered) body_len (omega arith),
          )
          (request_read_long h h')
  ]

  eq_same : (a b : ℕ) → a ≡ b → (a == b) ≡ true
  eq_same a b h = ground arith

  whole_body :
      1 ≤ body_len
      → length buffered ≡ body_len
      → body_len ≤ 32
      → request_body body_len buffered c ≡ ok (some none)
  unfolding request_body
  whole_body pos h h' =
      rw
        (
          pos-ne_zero body_len pos,
          le→ltb-false body_len (length buffered) (omega arith),
          le→ltb-false 32 (length buffered) (omega arith),
          eq_same (length buffered) body_len h,
        )
        refl

  short_body :
      1 ≤ body_len
      → length buffered < body_len
      → body_len ≤ 32
      → request_body body_len buffered c
        ≡ ok (some (some (arrived ++ replicate (32 - body_len) (body_len % 256))))
  unfolding request_body
  short_body pos h h' =
      rw
        (
          pos-ne_zero body_len pos,
          le→ltb-false body_len (length buffered) (omega arith),
          le→ltb-false 32 (length buffered) (omega arith),
          eq_test (length buffered) body_len h,
        )
        (request_read_short h h')

  -- With a channel that delivers, which is one whose reads each give a byte, as many reads as are wanted bytes, and so
  -- many bytes, and a length of 1 or more. Where the buffer holds more than the body, and where it holds
  -- exactly a body of at most 32 bytes, the body is not set in the request. Where it holds less, a body of at most 32
  -- bytes is set to what arrived and as many times the character `body_len` as make it 32. Where it holds exactly the
  -- body or less, and the body has more than 32 bytes, the code writes past the end of a text of 32: undefined.
  pub request_body_lem :
      1 ≤ body_len
      → ((body_len < length buffered) × (request_body body_len buffered c ≡ ok (some none)))
        ⊎ ((length buffered ≡ body_len)
            × (body_len ≤ 32)
            × (request_body body_len buffered c ≡ ok (some none)))
        ⊎ ((length buffered < body_len)
            × (body_len ≤ 32)
            × (request_body body_len buffered c
                ≡ ok (some (some (arrived ++ replicate (32 - body_len) (body_len % 256))))))
        ⊎ ((length buffered ≤ body_len)
            × (32 < body_len)
            × (request_body body_len buffered c ≡ throws undefined))
  unfolding request_body
  request_body_lem pos = elim (dec_lt body_len (length buffered)) [
    | yes h ↦ inl (h, rw (pos-ne_zero body_len pos, lt→ltb body_len (length buffered) h) refl)
    | no h ↦ elim (dec_lt 32 body_len) [
      | yes long ↦ inr (inr (inr (omega arith, long, long_body pos (omega arith) long)))
      | no short ↦ elim (ℕ_discrete (length buffered) body_len) [
        | yes same ↦ inr (inl (same, omega arith, whole_body pos same (omega arith)))
        | no other ↦
            inr (inr (inl (omega arith, omega arith, (short_body pos (omega arith) (omega arith)))))
      ]
    ]
  ]
