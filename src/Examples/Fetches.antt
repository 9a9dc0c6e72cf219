-- ===== src/Examples/Fetches.antt =====
-- Fetch calls at concrete inputs: a backend that answers `hi` to every request.
use grpc_webnext.Prelude.{
  ◌≡◌, ◌≢◌, List, [], ◌∷◌, ◌++◌, Option, none, some, true, false, Bytes, codes, flatten, refl,
  arith,
}
use grpc_webnext.Text.Percent.{ok, percent_decode, decode_loop, escape}
use grpc_webnext.Text.Utf8.{from_utf8_lossy}
use grpc_webnext.Text.Decimal.{parse_uint, parse_digits}
use grpc_webnext.Wire.BigEndian.{put_u32}
use grpc_webnext.Wire.Fetch.{
  Fetched, encode_request_body, encode_response_body, decode_response_body, block,
}
use grpc_webnext.Wire.Grpc.{frame}
use grpc_webnext.Ws.Frame.{Trailer}
use grpc_webnext.Backend.{body_trailers, Reply, response, PathAndQuery, Incoming}
use grpc_webnext.Metadata.{
  metadata_to_vec, parse_grpc_timeout, keep_allowed, text_of, read_status, status_text, parse_code,
}
use grpc_webnext.Fetch.Response.{
  boxed_full, Response, finished, TrailerBytes, trailer_codec, put, ct_proto, ct_json,
}
use grpc_webnext.Fetch.Request.{got, collect_bounded}
use grpc_webnext.Fetch.Request.Framing.{chunked}
use grpc_webnext.Fetch.Request.Bounds.{collect_bounded-chunked}
use grpc_webnext.Fetch.Upstream.{Upstream, upstream_headers, grpc_headers}
use grpc_webnext.Fetch.Unary.{
  in_time, after_frames, cutoff, trailers_only, relay_frames, unary_proto, answer_proto,
}
use grpc_webnext.Fetch.Unary.Relay.{sent}
use grpc_webnext.Fetch.Unary.Answers.{
  unary_proto-answers, relay_frames-undecodable, answer_proto-trailers_only,
}
use grpc_webnext.Transcoding.{done, Transcoding}
use grpc_webnext.Fetch.Json.{json_upstream}
use grpc_webnext.Fetch.Json.Answers.{response_entries, json_upstream-answers}
use grpc_webnext.Metadata.Appended.{appended}
use grpc_webnext.Examples.Headers.{small_http, Entries}

abbrev read_trailer : Bytes → Option Trailer
read_trailer [] = none
read_trailer (c ∷ message) =
    some (record { status_code = c; status_message = message; trailers = [] })

-- A trailer as its code and its message.
abbrev small_trailers : TrailerBytes
small_trailers = record { encode = λ t. t.status_code ∷ t.status_message; decode = read_trailer }

abbrev route : PathAndQuery
route = record { path = codes "/e/U"; query = none }

abbrev trailing : Entries
trailing = (codes "grpc-status", codes "0") ∷ (codes "x", codes "y") ∷ []

abbrev hi_chunks : List Bytes
hi_chunks = (0 ∷ 0 ∷ []) ∷ (0 ∷ 0 ∷ 2 ∷ b'h' ∷ []) ∷ (b'i' ∷ []) ∷ []

abbrev say_hi : Upstream Entries → Reply Entries
say_hi u = response [] (chunked Entries hi_chunks ++ body_trailers trailing ∷ [])

abbrev asked : Incoming Entries
asked = record {
  method = codes "POST";
  path_and_query = some route;
  headers = [];
  body = chunked Entries ((0 ∷ 0 ∷ []) ∷ (0 ∷ 1 ∷ b'a' ∷ []) ∷ []);
}

abbrev grpc_only : Entries
grpc_only = (codes "content-type", codes "application/grpc") ∷ (codes "te", codes "trailers") ∷ []

unary_proto-answers_example :
    (r : Response Entries) × (unary_proto small_http small_trailers say_hi 4 in_time asked ≡ ok r)
    × (sent r.body ≡ (
      encode_response_body (trailer_codec small_trailers) (codes "hi") (record {
        status_code = 0;
        status_message = [];
        trailers = metadata_to_vec small_http trailing;
      }),
      finished,
    ))
unfolding put_u32 frame encode_request_body block upstream_headers grpc_headers put
    parse_grpc_timeout keep_allowed text_of trailers_only read_status status_text parse_code
    parse_uint parse_digits percent_decode
unary_proto-answers_example =
    unary_proto-answers small_http small_trailers say_hi 4 asked route (codes "a") (codes "hi")
      ((0 ∷ 0 ∷ []) ∷ (0 ∷ 1 ∷ b'a' ∷ []) ∷ []) hi_chunks grpc_only [] trailing 0 [] refl refl refl
      (omega arith) (omega arith) refl (λ b e p. refl) refl refl refl

relay_frames-undecodable_example :
    decode_response_body
      (trailer_codec small_trailers)
      (flatten
        (relay_frames small_http small_trailers []
          (cutoff (after_frames 1))
          (chunked Entries ((0 ∷ 0 ∷ []) ∷ []) ++ [])
          1
          false
          []).chunks)
      100
    ≢ Fetched.ok (codes "hi", record { status_code = 0; status_message = []; trailers = [] })
unfolding put_u32 frame
relay_frames-undecodable_example =
    relay_frames-undecodable small_http small_trailers (codes "hi") [] ((0 ∷ 0 ∷ []) ∷ []) []
      (0 ∷ 0 ∷ 2 ∷ b'h' ∷ b'i' ∷ []) 100 (codes "hi")
      (record { status_code = 0; status_message = []; trailers = [] }) (omega arith) refl
      (omega arith)

abbrev not_found : Entries
not_found = (codes "grpc-status", codes "5") ∷ (codes "grpc-message", codes "no") ∷ []

answer_proto-trailers_only_example :
    let r = answer_proto small_http small_trailers in_time (response not_found []) in
    (r.headers ≡ put small_http [] (codes "content-type") ct_proto)
    × (sent r.body ≡ (
      encode_response_body (trailer_codec small_trailers) [] (record {
        status_code = 5;
        status_message = codes "no";
        trailers = metadata_to_vec small_http not_found;
      }),
      finished,
    ))
unfolding trailers_only read_status status_text text_of parse_code parse_uint parse_digits
    percent_decode decode_loop escape from_utf8_lossy
answer_proto-trailers_only_example =
    answer_proto-trailers_only small_http small_trailers not_found 5 (codes "no") refl refl refl

collect_bounded-chunked_example :
    collect_bounded small_http small_trailers (chunked Entries (codes "ab" ∷ codes "c" ∷ [])) 3
    ≡ got (codes "abc")
collect_bounded-chunked_example =
    collect_bounded-chunked small_http small_trailers (codes "ab" ∷ codes "c" ∷ []) 3

-- A transcoder whose JSON is the message between quotes.
abbrev quoting : Transcoding
quoting = record {
  transcode_http_request = λ method path query body. ok (done none);
  match_ws = λ path query. ok none;
  has_method = λ path. true;
  request_json_to_proto = λ path body. ok (done body);
  response_proto_to_json_body =
      λ path message field. ok (done (codes "'" ++ (message ++ codes "'")));
}

json_upstream-answers_example :
    json_upstream small_http small_trailers
      (λ fs. done (flatten hi_chunks, some trailing))
      say_hi
      quoting
      route
      (codes "a")
      []
      ct_json
      none
      false
      []
    ≡ ok (record {
      status = 200;
      headers =
          appended small_http [] (response_entries small_http ct_json (codes "0") [] [] trailing);
      body = boxed_full (codes "'hi'");
    })
unfolding put_u32 frame upstream_headers grpc_headers put keep_allowed read_status status_text
    text_of parse_code parse_uint parse_digits percent_decode
json_upstream-answers_example =
    json_upstream-answers small_http small_trailers quoting
      (λ fs. done (flatten hi_chunks, some trailing)) say_hi route (codes "a") (codes "hi")
      (codes "'hi'") ct_json [] [] [] grpc_only [] trailing none
      (chunked Entries hi_chunks ++ body_trailers trailing ∷ []) refl refl refl refl (omega arith)
      refl refl
