-- ===== src/Client/Typed.antt =====
-- Typed calls: rust/crates/grpc-webnext-client/src/typed.rs. The codec of prost is a parameter.
use grpc_webnext.Prelude.{ℕ, List, ◌++◌, Bool, Bytes, codes, map, ◌⊎◌, inl, inr}
use grpc_webnext.Client.Status.{Code, internal}
use grpc_webnext.Client.Metadata.{Base64, Metadata}
use grpc_webnext.Client.Terminal.{Texts, status_new}
use grpc_webnext.Client.Channel.{Channel}
use grpc_webnext.Client.Call.{CallOptions, Result, answered, rejected, ◌>>=◌, UnaryResponse, Whole}
use grpc_webnext.Client.Methods.{Exchange, unary, client_streaming}

pub record TypedResponse (M : Type 0) : Type 0 where
  pub message : M
  pub headers : Metadata
  pub trailers : Metadata

into_inner : {M : Type 0} → TypedResponse M → M
into_inner response = response.message

-- `encode_to_vec` of a request, and the decoder of a response, which fails with a text.
module _ {Req Res : Type 0} (encode_to_vec : Req → Bytes) (decode_message : Bytes → Bytes ⊎ Res)
    (describe : Code → Bytes) (base64 : Base64) (texts : Texts) where
  typed : UnaryResponse → Bytes ⊎ Res → Result (TypedResponse Res)
  typed response (inl e) =
      rejected (status_new internal (codes "failed to decode response message: " ++ e))
  typed response (inr message) =
      answered
        (record { message = message; headers = response.headers; trailers = response.trailers })

  decode : UnaryResponse → Result (TypedResponse Res)
  decode response = typed response (decode_message response.message)

  unary_typed :
      Channel
      → ℕ
      → Exchange
      → Bytes
      → Req
      → CallOptions
      → Bool
      → Whole
      → Channel × Result (TypedResponse Res)
  unary_typed ch conn exchange path request options late whole =
      let (ch', result) =
        unary describe base64 texts ch conn exchange path (encode_to_vec request) options late
          whole in
      (ch', result >>= λ response. decode response)

  client_streaming_typed :
      Channel
      → ℕ
      → Exchange
      → Bytes
      → List Req
      → CallOptions
      → Bool
      → Whole
      → Channel × Result (TypedResponse Res)
  client_streaming_typed ch conn exchange path requests options late whole =
      let (ch', result) =
        client_streaming describe base64 texts ch conn exchange path (map encode_to_vec requests)
          options late whole in
      (ch', result >>= λ response. decode response)
