-- ===== src/Examples/Bodies.antt =====
-- Framing and deframing at concrete inputs.
use grpc_webnext.Prelude.{
  ℕ, ◌≡◌, List, [], ◌∷◌, ◌++◌, Option, none, some, Bytes, codes, All, IsByte, refl, arith,
}
use grpc_webnext.Wire.BigEndian.{put_u32, get_u32}
use grpc_webnext.Wire.Grpc.{new, frame, pump, pull_all}
use grpc_webnext.Wire.Grpc.Chunks.{pump-frames}
use grpc_webnext.Client.Deframer
use grpc_webnext.Client.Deframer.Agrees.{server, push-pull_all}
use grpc_webnext.Wire.Fetch.{TrailerCodec, ok, encode_response_body, decode_response_body}
use grpc_webnext.Wire.Fetch.RoundTrip.{decode-encode_response_body}

-- The messages `a` and `bb`, in one body cut into two chunks.
abbrev two : List Bytes
two = codes "a" ∷ codes "bb" ∷ []

abbrev cut : List Bytes
cut = (0 ∷ 0 ∷ 0 ∷ []) ∷ (0 ∷ 1 ∷ b'a' ∷ 0 ∷ 0 ∷ 0 ∷ 0 ∷ 2 ∷ b'b' ∷ b'b' ∷ []) ∷ []

pump-frames_example : pump cut new [] ≡ (two, new)
unfolding frame put_u32
pump-frames_example = pump-frames two cut (omega arith, (omega arith, tt)) refl

abbrev fresh : Deframer.Deframer
fresh = record { buffer = 0 ∷ 0 ∷ []; max_message_bytes = none }

abbrev rest_of_a : Bytes
rest_of_a = 0 ∷ 0 ∷ 1 ∷ b'a' ∷ 0 ∷ []

push-pull_all_example :
    (pull_all (server (fresh.buffer ++ rest_of_a)) ≡ (codes "a" ∷ [], server (0 ∷ [])))
    × (◌≡◌ {A = Option ℕ} none none)
unfolding Deframer.push Deframer.push_loop Deframer.flag_at get_u32 Deframer.over_limit
push-pull_all_example =
    push-pull_all fresh rest_of_a (codes "a" ∷ [])
      (record { buffer = 0 ∷ []; max_message_bytes = none }) refl

-- A trailer that is its own encoding.
abbrev raw : TrailerCodec
raw = record { Trailer = Bytes; encode_trailer = λ t. t; decode_trailer = λ b. some b }

decode-encode_response_body_example :
    decode_response_body raw (encode_response_body raw (codes "hi") (codes "t")) 11
    ≡ ok (codes "hi", codes "t")
decode-encode_response_body_example =
    decode-encode_response_body raw (λ t. refl) (codes "hi") (codes "t") 11 (omega arith)
      (omega arith) (omega arith)

abbrev hi_body : Bytes
hi_body = 0 ∷ 0 ∷ 0 ∷ 2 ∷ b'h' ∷ b'i' ∷ 0 ∷ 0 ∷ 0 ∷ 1 ∷ b't' ∷ []

hi_body-IsByte : All IsByte hi_body
hi_body-IsByte = (
  omega arith,
  (
    omega arith,
    (
      omega arith,
      (
        omega arith,
        (
          omega arith,
          (
            omega arith,
            (omega arith, (omega arith, (omega arith, (omega arith, (omega arith, tt))))),
          ),
        ),
      ),
    ),
  ),
)
