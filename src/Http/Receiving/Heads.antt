-- ===== src/Http/Receiving/Heads.antt =====
-- The buffer of the first loop of `recvRequest` and `recvResponse` in East/http.
use east.Common.{
  ℕ, ◌+◌, ◌-◌, ◌≤◌, ◌<◌, min, ◌≡◌, arith, Bool, false, Bool-cases, inl, inr, Option, none, some,
  List, [], ◌∷◌, ◌++◌, length, drop, ◌==◌, length-append, length-take, length-drop,
}
use east.Stream.{Channel, piece, after_piece}
use east.Http.Receiving.{Head, after_execute, after_read, recv_head}

not_eq : (a b : ℕ) → (a == b) ≡ false → a ≤ b → a < b
not_eq a b h h' = ground arith

module _ {Parser : Type 0} (execute : Parser → List ℕ → Parser × ℕ)
    (has_error is_finished : Parser → Bool) (buf_size : ℕ) where
  -- Room for one more byte at least.
  abbrev pub HasRoom : Option (Head Parser) → Type 0
  HasRoom none = Unit {0}
  HasRoom (some h) = length h.buffered < buf_size

  after_execute-HasRoom :
      (buffered : List ℕ) (c : Channel) (again : Parser → List ℕ → Option (Head Parser))
      (parsed : Parser × ℕ)
      → length buffered ≤ buf_size
      → ((p : Parser) (left : List ℕ) → length left < buf_size → HasRoom (again p left))
      → HasRoom (after_execute execute has_error is_finished buf_size buffered c again parsed)
  after_execute-HasRoom buffered c again (p, k) h rounds = elim (Bool-cases (has_error p)) [
    | inl e ↦ rw (e) tt
    | inr e ↦ rw (e) (elim (Bool-cases (length (drop k buffered) == buf_size)) [
      | inl full ↦ rw (full) tt
      | inr room ↦ rw (room) (elim (Bool-cases (is_finished p)) [
        | inl f ↦ rw (f) (
            not_eq (length (drop k buffered)) buf_size room (omega (arith, length-drop k buffered)))
        | inr f ↦ rw (f) (
            rounds p (drop k buffered) (
              not_eq (length (drop k buffered)) buf_size room
                (omega (arith, length-drop k buffered))))
      ])
    ])
  ]

  after_read-HasRoom :
      (buffered bytes : List ℕ) (c : Channel) (again : Parser → List ℕ → Option (Head Parser))
      (p : Parser)
      → length buffered + length bytes ≤ buf_size
      → ((p : Parser) (left : List ℕ) → length left < buf_size → HasRoom (again p left))
      → HasRoom (after_read execute has_error is_finished buf_size buffered bytes c again p)
  after_read-HasRoom buffered [] c again p h rounds = tt
  after_read-HasRoom buffered (b ∷ bytes) c again p h rounds =
      after_execute-HasRoom (buffered ++ b ∷ bytes) c again (execute p (buffered ++ b ∷ bytes))
        (omega (arith, length-append buffered (b ∷ bytes))) rounds

  -- From a buffer with room for one more byte, whatever the parser does and however the bytes arrive: what the loop
  -- leaves in the buffer, where it does not give null, leaves room for one more byte.
  pub recv_head-HasRoom :
      (sizes input : List ℕ) (p : Parser) (buffered : List ℕ)
      → length buffered < buf_size
      → HasRoom (recv_head execute has_error is_finished buf_size sizes input p buffered)
  recv_head-HasRoom [] input p buffered h = tt
  recv_head-HasRoom (size ∷ sizes) input p buffered h =
      let n = buf_size - length buffered in
      after_read-HasRoom buffered (piece size n input)
        (record { sizes = sizes; input = after_piece size n input })
        (recv_head execute has_error is_finished buf_size sizes (after_piece size n input)) p
        (omega (arith, length-take (min size n) input))
        (λ q left room. recv_head-HasRoom sizes (after_piece size n input) q left room)
