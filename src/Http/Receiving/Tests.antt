-- ===== src/Http/Receiving/Tests.antt =====
-- Messages received on concrete inputs.
use east.Common.{
  ℕ, suc, ◌≤◌, ◌<◌, ◌≡◌, ◌⊎◌, refl, arith, false, none, some, List, [], ◌∷◌, ◌++◌, replicate, ok,
  throws, undefined, if◌then◌else◌, ◌==◌,
}
use east.Common.Texts.{codes}
use east.Stream.{Channel, to_int, is_positive, read_fix_size}
use east.Stream.Whole.{Delivers}
use east.Http.Receiving.{response_body, request_body, recv_head, recv_response}
use east.Http.Receiving.Bodies.{Receives, response_body_lem, request_body_lem}
use east.Http.Receiving.Heads.{HasRoom, recv_head-HasRoom}

-- Seven bytes of a body, in two reads.
abbrev rest_of_body : Channel
rest_of_body = record { sizes = 5 ∷ 5 ∷ 5 ∷ 5 ∷ 5 ∷ 5 ∷ 5 ∷ []; input = codes "defghij" }

rest-Delivers : Delivers 7 rest_of_body
rest-Delivers = record {
  positive = (
    omega arith,
    (omega arith, (omega arith, (omega arith, (omega arith, (omega arith, (omega arith, tt)))))),
  );
  reads = omega arith;
  bytes = omega arith;
}

response_body_lem_example : Receives 10 (codes "abc") rest_of_body
response_body_lem_example = response_body_lem 10 (codes "abc") rest_of_body rest-Delivers

abbrev three : ℕ
three = 3

request_body_lem_example :
    ((10 < 3) × (request_body 10 (codes "abc") rest_of_body ≡ ok (some none)))
    ⊎ ((three ≡ 10) × (10 ≤ 32) × (request_body 10 (codes "abc") rest_of_body ≡ ok (some none)))
    ⊎ ((3 < 10)
        × (10 ≤ 32)
        × (request_body 10 (codes "abc") rest_of_body
            ≡ ok (some (some (codes "abcdefghij" ++ replicate 22 10)))))
    ⊎ ((3 ≤ 10) × (32 < 10) × (request_body 10 (codes "abc") rest_of_body ≡ throws undefined))
request_body_lem_example =
    request_body_lem 10 (codes "abc") rest_of_body rest-Delivers (omega arith)

-- A parser that takes all bytes up to a full stop, and counts them.
abbrev to_stop : ℕ → List ℕ → ℕ × ℕ
to_stop p [] = (p, 0)
to_stop p (c ∷ cs) = let later = to_stop p cs in if c == 46 then (1, 1) else (later.0, suc later.1)

recv_head-HasRoom_example :
    HasRoom to_stop
      (λ p. false)
      (λ p. p == 1)
      8
      (recv_head to_stop (λ p. false) (λ p. p == 1) 8 (3 ∷ 9 ∷ []) (codes "abc.body") 0 [])
recv_head-HasRoom_example =
    recv_head-HasRoom to_stop (λ p. false) (λ p. p == 1) 8 (3 ∷ 9 ∷ []) (codes "abc.body") 0 []
      (omega arith)

-- The body arrives with the head, and is lost.
lost_body_run :
    recv_response to_stop
      (λ p. false)
      (λ p. p == 1)
      (λ p. 4)
      16
      0
      (record { sizes = 3 ∷ 9 ∷ []; input = codes "abc.body" })
    ≡ some (1, none)
unfolding recv_response response_body
lost_body_run = refl

-- The body arrives behind the head.
late_body_run :
    recv_response to_stop
      (λ p. false)
      (λ p. p == 1)
      (λ p. 4)
      16
      0
      (record { sizes = 5 ∷ 3 ∷ []; input = codes "abc.body" })
    ≡ some (1, some (codes "body"))
unfolding recv_response response_body read_fix_size is_positive to_int
late_body_run = refl
