-- ===== src/Fetch/Response.antt =====
-- Responses of rust/crates/grpc-webnext/src/fetch.rs. A body is the list of its chunks, and how it
-- ends.
use grpc_webnext.Prelude.{
  ℕ, List, [], ◌∷◌, Option, none, some, Bytes, codes, is_empty, if◌then◌else◌, ◌==◌, Bool, ◌||◌,
  str_eq,
}
use grpc_webnext.Text.Decimal.{decimal}
use grpc_webnext.Text.Percent.{percent_encode}
use grpc_webnext.Client.Status.{Code}
use grpc_webnext.Ws.Codec.{code_number}
use grpc_webnext.Ws.Frame.{Trailer}
use grpc_webnext.Wire.Fetch.{TrailerCodec, encode_response_body}
use grpc_webnext.Metadata.{Http, merge_metadata_into_headers}

-- The end of a body: the last chunk, an error by its text, or a panic of the task that makes the chunks.
pub data Ending : Type 0 where
  finished : Ending
  broken : Bytes → Ending
  panicked : Ending

pub record Body : Type 0 where
  pub chunks : List Bytes
  pub ending : Ending

-- `boxed_full(Full::new(bytes))`.
abbrev pub boxed_full : Bytes → Body
boxed_full bytes = record { chunks = bytes ∷ []; ending = finished }

pub record Response (H : Type 0) : Type 0 where
  pub status : ℕ
  pub headers : H
  pub body : Body

abbrev pub ct_proto : Bytes
ct_proto = codes "application/grpc-webnext+proto"

abbrev pub ct_json : Bytes
ct_json = codes "application/grpc-webnext+json"

abbrev pub ct_grpc : Bytes
ct_grpc = codes "application/grpc"

abbrev pub plain_json : Bytes
plain_json = codes "application/json"

is_json_ct : Bytes → Bool
is_json_ct ct = str_eq ct ct_json || str_eq ct plain_json

-- The protobuf codec of the generated `Trailer`.
pub record TrailerBytes : Type 0 where
  pub encode : Trailer → Bytes
  pub decode : Bytes → Option Trailer

abbrev pub trailer_codec : TrailerBytes → TrailerCodec
trailer_codec b = record { Trailer = Trailer; encode_trailer = b.encode; decode_trailer = b.decode }

module _ (http : Http) where
  open http use {HeaderMap, HeaderValue}

  -- `builder.header(name, text)`: a text that is no header value fails the builder, and the code
  -- passes only texts that are.
  unfoldable pub put : HeaderMap → Bytes → Bytes → HeaderMap
  put headers name value = elim (http.from_str value) [
    | none ↦ headers
    | some v ↦ http.append headers name v
  ]

  pub text_response : ℕ → Bytes → Response HeaderMap
  text_response status message = record {
    status = status;
    headers = http.empty;
    body = boxed_full message;
  }

  -- The `grpc-message` header, where there is a message and its encoding is a header value.
  unfoldable pub put_message : HeaderMap → Bytes → HeaderMap
  put_message headers message =
      if is_empty message
      then headers
      else put headers (codes "grpc-message") (percent_encode message)

  unfoldable pub status_headers : Bytes → ℕ → Bytes → HeaderMap
  status_headers content_type code message =
      put_message
        (put (put http.empty (codes "content-type") content_type) (codes "grpc-status")
          (decimal code))
        message

  unfoldable pub json_fetch_response :
      Bytes → Bytes → ℕ → Bytes → HeaderMap → HeaderMap → Response HeaderMap
  json_fetch_response content_type message code status_message initial trailing = record {
    status = 200;
    headers = merge_metadata_into_headers http (http.from_headers trailing) (
        merge_metadata_into_headers http (http.from_headers initial)
          (status_headers content_type code status_message));
    body = boxed_full (if code == 0 then message else []);
  }

  module _ (trailers : TrailerBytes) where
    -- A body of a status alone.
    status_body : ℕ → Bytes → Bytes
    status_body code message =
        encode_response_body (trailer_codec trailers) []
          (record { status_code = code; status_message = message; trailers = [] })

    pub webnext_error : Bytes → Code → Bytes → Response HeaderMap
    webnext_error content_type code message =
        if is_json_ct content_type
        then json_fetch_response content_type [] (code_number code) message http.empty http.empty
        else record {
          status = 200;
          headers = put http.empty (codes "content-type") content_type;
          body = boxed_full (status_body (code_number code) message);
        }

    pub fetch_status : Code → Bytes → Response HeaderMap
    fetch_status code message = record {
      status = 200;
      headers = put http.empty (codes "content-type") ct_proto;
      body = boxed_full (status_body (code_number code) message);
    }
