-- ===== src/Examples/Texts.antt =====
-- Percent-encoding, deadlines, statuses and frames at concrete inputs.
use grpc_webnext.Prelude.{ℕ, ◌≤◌, ◌≡◌, inl, List, [], ◌∷◌, length, take, arith}
use grpc_webnext.Text.Utf8.{utf8}
use grpc_webnext.Text.Percent.{ok, panic, percent_decode, percent_encode}
use grpc_webnext.Text.Percent.RoundTrip.{percent_decode-percent_encode}
use grpc_webnext.Text.Percent.Faults.{percent_decode_panics}
use grpc_webnext.Ws.Codec.{truncate_utf8}
use grpc_webnext.Ws.Codec.Truncate.{truncate_utf8-utf8}

-- `é`.
abbrev accent : List ℕ
accent = 233 ∷ []

percent_decode-percent_encode_example :
    percent_decode (percent_encode (utf8 accent)) ≡ ok (utf8 accent)
percent_decode-percent_encode_example = percent_decode-percent_encode accent (inl (omega arith), tt)

-- `%aé`.
percent_decode_panics_example : percent_decode (b'%' ∷ b'a' ∷ 0xc3 ∷ 0xa9 ∷ []) ≡ panic
percent_decode_panics_example =
    percent_decode_panics b'a' 0xc3 0xa9 [] (omega arith) (omega arith) (omega arith)

truncate_utf8-utf8_example :
    (n : ℕ) × (truncate_utf8 (utf8 (233 ∷ 233 ∷ [])) 3 ≡ utf8 (take n (233 ∷ 233 ∷ [])))
    × (length (truncate_utf8 (utf8 (233 ∷ 233 ∷ [])) 3) ≤ 3)
truncate_utf8-utf8_example = truncate_utf8-utf8 (233 ∷ 233 ∷ []) 3
