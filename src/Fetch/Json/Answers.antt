-- ===== src/Fetch/Json/Answers.antt =====
-- What a JSON call answers (`json_upstream` of rust/crates/grpc-webnext/src/fetch.rs).
use grpc_webnext.Prelude.{
  ℕ, ◌<◌, ◌^◌, ◌≡◌, List, [], ◌∷◌, Option, none, some, false, ◌&&◌, ◌==◌, Bytes, length, is_empty,
  refl, ◌++◌, Bool, true, if◌then◌else◌, codes, ap, sym, ◌∙◌,
}
use grpc_webnext.Text.Percent.{ok}
use grpc_webnext.Wire.Grpc.{frame, deframe_all}
use grpc_webnext.Wire.Grpc.Collect.{deframe_all-frame}
use grpc_webnext.Backend.{BodyFrame, Reply, response, PathAndQuery}
use grpc_webnext.Metadata.{Http, read_status}
use grpc_webnext.Metadata.{merge_metadata_into_headers}
use grpc_webnext.Metadata.Appended.{
  appended, taken_with, taken, allowed, appended-append, keep_allowed-appended,
}
use grpc_webnext.Text.Decimal.{decimal, decimal_loop}
use grpc_webnext.Text.Percent.{percent_encode}
use grpc_webnext.Fetch.Response.{
  TrailerBytes, boxed_full, put, put_message, status_headers, json_fetch_response,
}
use grpc_webnext.Fetch.Upstream.{Upstream, upstream_headers}
use grpc_webnext.Transcoding.{done, Transcoding}
use grpc_webnext.Fetch.Json.{
  Collect, first_message, is_some, trailers_or_default, json_body_response, render_json,
  answer_json, json_upstream,
}

is_some-false : (d : Option ℕ) → is_some d && false ≡ false
unfolding is_some
is_some-false none = refl
is_some-false (some d) = refl

module _ (http : Http) where
  open http use {HeaderMap, HeaderValue, from_str, from_headers, into_headers, header_iter}

  -- The message of a status, where there is one.
  abbrev pub message_entry : Bytes → List (Bytes × Bytes)
  message_entry message =
      if is_empty message then [] else (codes "grpc-message", percent_encode message) ∷ []

  -- The metadata that a header map carries, but for what is denied.
  abbrev pub metadata_of : HeaderMap → List (Bytes × HeaderValue)
  metadata_of headers = allowed http (header_iter (into_headers (from_headers headers)))

  -- The headers of a JSON response: its type, the status, and the metadata of both sides, in order.
  abbrev pub response_entries :
      Bytes → Bytes → Bytes → HeaderMap → HeaderMap → List (Bytes × HeaderValue)
  response_entries content_type code message initial trailing =
      taken http (λ name. some name) from_str
        ((codes "content-type", content_type) ∷ (codes "grpc-status", code) ∷ message_entry message)
      ++ (metadata_of initial ++ metadata_of trailing)

  put-taken :
      (headers : HeaderMap) (name value : Bytes) (entries : List (Bytes × Bytes))
      → appended http (put http headers name value) (taken http (λ n. some n) from_str entries)
        ≡ appended http headers (taken http (λ n. some n) from_str ((name, value) ∷ entries))
  unfolding put taken appended
  put-taken headers name value entries = go (from_str value)
    where
      go :
          (o : Option HeaderValue)
          → appended http
              (elim o [ none ↦ headers | some v ↦ http.append headers name v ])
              (taken http (λ n. some n) from_str entries)
            ≡ appended http headers
                (taken_with http (some name) o ++ taken http (λ n. some n) from_str entries)
      go none = refl
      go (some v) = refl

  status_headers-taken :
      (content_type message : Bytes) (n : ℕ)
      → status_headers http content_type n message
        ≡ appended http http.empty (
            taken http
              (λ name. some name)
              from_str
              ((codes "content-type", content_type)
                ∷ (codes "grpc-status", decimal n)
                ∷ message_entry message))
  unfolding status_headers put_message
  status_headers-taken content_type message n =
      go (is_empty message)
      ∙ put-taken _ (codes "grpc-status") (decimal n) (message_entry message)
      ∙ put-taken http.empty (codes "content-type") content_type _
    where
      base : HeaderMap
      base =
          put http (put http http.empty (codes "content-type") content_type) (codes "grpc-status")
            (decimal n)

      go :
          (b : Bool)
          → (if b then base else put http base (codes "grpc-message") (percent_encode message))
            ≡ appended http base (
                taken http
                  (λ name. some name)
                  from_str
                  (if b then [] else (codes "grpc-message", percent_encode message) ∷ []))
      go true = unfold appended in unfold taken in refl
      go false =
          unfold appended in
          unfold taken in put-taken base (codes "grpc-message") (percent_encode message) []

  json_fetch_response-headers :
      (content_type body message : Bytes) (n : ℕ) (initial trailing : HeaderMap)
      → (json_fetch_response http content_type body n message initial trailing).headers
        ≡ appended http http.empty
            (response_entries content_type (decimal n) message initial trailing)
  unfolding json_fetch_response merge_metadata_into_headers
  json_fetch_response-headers content_type body message n initial trailing =
      let own =
        taken http (λ name. some name) from_str
          ((codes "content-type", content_type)
            ∷ (codes "grpc-status", decimal n)
            ∷ message_entry message) in
      keep_allowed-appended http (header_iter (into_headers (from_headers trailing))) _
      ∙ ap (λ h. appended http h (metadata_of trailing))
          (keep_allowed-appended http (header_iter (into_headers (from_headers initial))) _
            ∙ ap (λ h. appended http h (metadata_of initial))
                (status_headers-taken content_type message n))
      ∙ sym (appended-append http _ (metadata_of initial) (metadata_of trailing))
      ∙ sym (appended-append http http.empty own (metadata_of initial ++ metadata_of trailing))

module _ (http : Http) (trailers : TrailerBytes) (tc : Transcoding) where
  open http use {HeaderMap}

  opened :
      (resp_ct j message : Bytes) (hs t : HeaderMap)
      → json_fetch_response http resp_ct j 0 message hs t ≡ record {
        status = 200;
        headers = appended http http.empty (response_entries http resp_ct (codes "0") message hs t);
        body = boxed_full j;
      }
  unfolding json_fetch_response decimal decimal_loop
  opened resp_ct j message hs t =
      ap (λ (h : HeaderMap). record { status = 200; headers = h; body = boxed_full j })
        (json_fetch_response-headers http resp_ct j message 0 hs t)

  -- If no deadline passes, the gRPC headers can be built, and the backend answers the framed message
  -- with headers and a body that collects to one frame, of a message that is not empty and shorter than
  -- 2^32 bytes, and to trailers that hold the status 0, and the transcoder turns this message into JSON,
  -- then the response has the HTTP status 200, this JSON as its body, and in its headers, in order, the
  -- content type, the status 0, the encoded message of the status where it is not empty, and the metadata
  -- of the headers and of the trailers that is not denied (what is no header value is left out).
  pub json_upstream-answers :
      (collect : Collect HeaderMap) (backend : Upstream HeaderMap → Reply HeaderMap)
      (path : PathAndQuery) (m m' j resp_ct response_body message : Bytes)
      (headers up hs t : HeaderMap) (deadline : Option ℕ) (fs : List (BodyFrame HeaderMap))
      → upstream_headers http headers deadline ≡ ok up
      → backend (record { path = path; headers = up; body = boxed_full (frame m) }) ≡ response hs fs
      → collect fs ≡ done (frame m', some t)
      → read_status http t hs ≡ ok (0, message)
      → length m' < 2 ^ 32
      → is_empty m' ≡ false
      → tc.response_proto_to_json_body path.path m' response_body ≡ ok (done j)
      → json_upstream http trailers collect backend tc path m headers resp_ct deadline false
          response_body
        ≡ ok (record {
          status = 200;
          headers =
              appended http http.empty (response_entries http resp_ct (codes "0") message hs t);
          body = boxed_full j;
        })
  unfolding json_upstream answer_json render_json json_body_response first_message
      trailers_or_default
  json_upstream-answers collect backend path m m' j resp_ct response_body message headers up hs t
        deadline fs eu eb ec er hm ne ej =
      let d : deframe_all (frame m') ≡ m' ∷ [] = deframe_all-frame m' hm in
      let made : json_upstream http trailers collect backend tc path m headers resp_ct deadline
            false response_body
          ≡ ok (json_fetch_response http resp_ct j 0 message hs t) =
        rw (eu, eb, is_some-false deadline)
          (rw (answer_json, ec, render_json, d) (rw er (rw (ne, ej) refl))) in
      made ∙ ap ok (opened resp_ct j message hs t)

  -- If a reply's body collects, and its status is not 0, then the response has an empty body and this
  -- status in its headers, whatever the backend sent as a message.
  answer_json-status :
      (collect : Collect HeaderMap) (path resp_ct response_body bytes message : Bytes)
      (hs : HeaderMap) (t : Option HeaderMap) (n : ℕ) (fs : List (BodyFrame HeaderMap))
      → (n == 0) ≡ false
      → collect fs ≡ done (bytes, t)
      → read_status http (trailers_or_default http trailers t) hs ≡ ok (n, message)
      → answer_json http trailers tc path resp_ct response_body collect (response hs fs)
        ≡ ok
            (json_fetch_response http resp_ct [] n message hs (trailers_or_default http trailers t))
  unfolding answer_json render_json
  answer_json-status collect path resp_ct response_body bytes message hs t n fs z ec er =
      rw (answer_json, ec) (rw (render_json, er) (rw z refl))
