-- ===== src/Fetch/Unary/Answers.antt =====
-- What a `+proto` call answers (`unary_proto` of rust/crates/grpc-webnext/src/fetch.rs), from the
-- bytes of the request to those of the response.
use grpc_webnext.Prelude.{
  ℕ, zero, suc, ◌≤◌, ◌<◌, ◌^◌, ◌≡◌, ◌≢◌, List, [], ◌∷◌, ◌++◌, Option, none, some, Bool, true, false,
  not, ◌&&◌, ◌||◌, Bytes, codes, length, drop, is_empty, flatten, refl, sym, ap, ◌∙◌, append-nil,
  length-append, arith, if◌then◌else◌,
}
use grpc_webnext.Text.Percent.{ok}
use grpc_webnext.Wire.BigEndian.{put_u32, get_u32, get_u32-put_u32, get_u32-prefix, length-put_u32}
use grpc_webnext.Wire.Fetch.{
  Fetched, encode_request_body, encode_response_body, decode_response_body, encode_trailer_block,
  block,
}
use grpc_webnext.Wire.Fetch.RoundTrip.{decode_response_body-length}
use grpc_webnext.Ws.Frame.{Trailer}
use grpc_webnext.Wire.Grpc.{frame, pump, new}
use grpc_webnext.Backend.{
  BodyFrame, body_data, body_trailers, body_error, Reply, response, PathAndQuery, Incoming,
}
use grpc_webnext.Metadata.{Http, parse_grpc_timeout, read_status, metadata_to_vec}
use grpc_webnext.Fetch.Response.{
  put, ct_proto, Response, Body, finished, TrailerBytes, trailer_codec,
}
use grpc_webnext.Fetch.Request.Framing.{chunked, frame_upstream_request-relays}
use grpc_webnext.Fetch.Upstream.{Upstream, upstream_headers}
use grpc_webnext.Fetch.Unary.{
  in_time, after_frames, expiry_of, cutoff, fired, tick, trailers_only, final_status,
  trailing_headers, trailer_chunk, after_loop, relay_frames, proto_response, answer_proto,
  call_proto, unary_proto,
}
use grpc_webnext.Fetch.Unary.Relay.{sent, bytes_before, ahead, relay_frames-chunked}

-- The flag byte is dropped from a frame.
skip_frame : (m : Bytes) → drop 1 (frame m) ≡ put_u32 (length m) ++ m
unfolding frame
skip_frame m = refl

expiry_of-in_time : (d : Option ℕ) → expiry_of d in_time ≡ in_time
unfolding expiry_of
expiry_of-in_time none = refl
expiry_of-in_time (some d) = refl

module _ (http : Http) (trailers : TrailerBytes) where
  open http use {HeaderMap}

  ahead-none : (k : ℕ) → ahead k none ≡ none
  ahead-none zero = refl
  ahead-none (suc k) = rw (ahead-none k) refl

  trailing_headers-initial :
      (t hs : HeaderMap)
      → trailers_only http trailers hs ≡ false
      → trailing_headers http trailers t hs ≡ t
  unfolding trailing_headers
  trailing_headers-initial t hs e = rw e (go (is_empty (http.header_iter t)))
    where
      go : (b : Bool) → (if b && false then hs else t) ≡ t
      go true = refl
      go false = refl

  -- The end of a body with trailers, whether or not a message was seen.
  after_loop-trailers :
      (hs t : HeaderMap) (n : ℕ) (message : Bytes)
      → trailers_only http trailers hs ≡ false
      → read_status http t hs ≡ ok (n, message)
      → sent (after_loop http trailers hs false true t) ≡ (
        encode_trailer_block (trailer_codec trailers) (record {
          status_code = n;
          status_message = message;
          trailers = metadata_to_vec http (http.from_headers t);
        }),
        finished,
      )
  unfolding after_loop final_status trailer_chunk
  after_loop-trailers hs t n message o r = rw (r, trailing_headers-initial t hs o, append-nil) refl

  relay_frames-whole :
      (m : Bytes) (hs t : HeaderMap) (ks : List Bytes) (n : ℕ) (message : Bytes)
      → flatten ks ≡ frame m
      → trailers_only http trailers hs ≡ false
      → read_status http t hs ≡ ok (n, message)
      → sent (
          relay_frames http trailers hs none
            (chunked HeaderMap ks ++ body_trailers t ∷ [])
            1
            false
            http.empty)
        ≡ (
          encode_response_body (trailer_codec trailers) m (record {
            status_code = n;
            status_message = message;
            trailers = metadata_to_vec http (http.from_headers t);
          }),
          finished,
        )
  unfolding relay_frames fired tick encode_response_body encode_trailer_block block put_u32 frame
  relay_frames-whole m hs t ks n message e o r =
      let c =
        relay_frames-chunked http trailers hs none ks (body_trailers t ∷ []) 1 false http.empty in
      (rw (ahead-none (length ks), e) at c)
      ∙ ap (bytes_before (put_u32 (length m) ++ m)) (after_loop-trailers hs t n message o r)

  -- Where the timer fires with part of the message sent, nothing follows.
  relay_frames-stopped :
      (hs t : HeaderMap) (fs : List (BodyFrame HeaderMap)) (skip : ℕ)
      → sent (relay_frames http trailers hs (some 0) fs skip true t) ≡ ([], finished)
  unfolding relay_frames after_loop fired
  relay_frames-stopped hs t [] skip = refl
  relay_frames-stopped hs t (body_data c ∷ fs) skip = refl
  relay_frames-stopped hs t (body_trailers u ∷ fs) skip = refl
  relay_frames-stopped hs t (body_error x ∷ fs) skip = refl

  ahead-some : (k : ℕ) → ahead k (some 0) ≡ some k
  ahead-some zero = refl
  ahead-some (suc k) = rw (ahead-some k) refl

  part_of_frame-undecodable :
      (m p q : Bytes) (limit : ℕ) (message : Bytes) (t : Trailer)
      → length m < 2 ^ 32
      → p ++ q ≡ frame m
      → decode_response_body (trailer_codec trailers) (drop 1 p) limit ≢ Fetched.ok (message, t)
  unfolding frame
  part_of_frame-undecodable m [] q limit message t h e d =
      omega (arith, decode_response_body-length (trailer_codec trailers) [] limit message t d)
  part_of_frame-undecodable m (a ∷ p) q limit message t h e d =
      let l = decode_response_body-length (trailer_codec trailers) p limit message t d in
      let e' : p ++ q ≡ put_u32 (length m) ++ m = ap (drop 1) e in
      let u : get_u32 p ≡ length m =
        sym (get_u32-prefix p q (omega (arith, l)))
        ∙ ap get_u32 e'
        ∙ get_u32-put_u32 (length m) m h in
      omega (
        arith,
        l,
        u,
        ap length e',
        length-append p q,
        length-append (put_u32 (length m)) m,
        length-put_u32 (length m),
      )

  -- If the deadline passes when part of the backend's frame of a message shorter than 2^32 bytes has
  -- come, of more than the flag byte, then the body that is sent is no response body: whatever limit the
  -- client sets, it decodes to no message and trailer.
  pub relay_frames-undecodable :
      (m : Bytes) (hs : HeaderMap) (ks : List Bytes) (fs : List (BodyFrame HeaderMap)) (q : Bytes)
      (limit : ℕ) (message : Bytes) (t : Trailer)
      → length m < 2 ^ 32
      → flatten ks ++ q ≡ frame m
      → 1 < length (flatten ks)
      → let body =
          relay_frames http trailers hs
            (cutoff (after_frames (length ks)))
            (chunked HeaderMap ks ++ fs)
            1
            false
            http.empty in
        decode_response_body (trailer_codec trailers) (flatten body.chunks) limit
        ≢ Fetched.ok (message, t)
  unfolding cutoff
  relay_frames-undecodable m hs ks fs q limit message t h e l =
      let c = relay_frames-chunked http trailers hs (some 0) ks fs 1 false http.empty in
      let s : sent (
            relay_frames http trailers hs (some (length ks)) (chunked HeaderMap ks ++ fs) 1 false
              http.empty)
          ≡ (drop 1 (flatten ks) ++ [], finished) =
        (rw (ahead-some (length ks), seen (flatten ks) l) at c)
        ∙ ap (bytes_before (drop 1 (flatten ks))) (relay_frames-stopped hs http.empty fs _) in
      rw (ap (λ x. x.0) s, append-nil)
        (part_of_frame-undecodable m (flatten ks) q limit message t h e)
    where
      seen : (p : Bytes) → 1 < length p → false || not (is_empty (drop 1 p)) ≡ true
      seen [] h = absurd (omega arith)
      seen (a ∷ []) h = absurd (omega arith)
      seen (a ∷ b ∷ p) h = refl

  -- If the timer does not fire, the request's body is the encoding of a message shorter than 2^32 bytes
  -- and within the limit, cut into any chunks, the gRPC headers can be built, and the backend answers
  -- every body in which it reads this message with headers of no status, a frame in any chunks, and
  -- trailers that hold a status, then the response is the encoding of the message in the frame and of
  -- the status and the metadata of the trailers, and does not break off.
  pub unary_proto-answers :
      (backend : Upstream HeaderMap → Reply HeaderMap) (max : ℕ) (req : Incoming HeaderMap)
      (path : PathAndQuery) (m m' : Bytes) (cs ks : List Bytes) (up hs t : HeaderMap) (n : ℕ)
      (message : Bytes)
      → req.path_and_query ≡ some path
      → req.body ≡ chunked HeaderMap cs
      → flatten cs ≡ encode_request_body m
      → length m < 2 ^ 32
      → length m ≤ max
      → upstream_headers http req.headers (parse_grpc_timeout http req.headers) ≡ ok up
      → ((b : Body)
          → b.ending ≡ finished
          → pump b.chunks new [] ≡ (m ∷ [], new)
          → backend (record { path = path; headers = up; body = b })
            ≡ response hs (chunked HeaderMap ks ++ body_trailers t ∷ []))
      → flatten ks ≡ frame m'
      → trailers_only http trailers hs ≡ false
      → read_status http t hs ≡ ok (n, message)
      → (r : Response HeaderMap) × (unary_proto http trailers backend max in_time req ≡ ok r)
        × (sent r.body ≡ (
          encode_response_body (trailer_codec trailers) m' (record {
            status_code = n;
            status_message = message;
            trailers = metadata_to_vec http (http.from_headers t);
          }),
          finished,
        ))
  unfolding unary_proto call_proto answer_proto proto_response expiry_of cutoff
  unary_proto-answers backend max req path m m' cs ks up hs t n message ep eb ec hm hl eu law ek o
        r =
      let (body, f, fin, read) = frame_upstream_request-relays http m cs max hm hl ec in
      let b = law body fin read in
      let x = expiry_of-in_time (parse_grpc_timeout http req.headers) in
      (
        proto_response http trailers hs (
            relay_frames http trailers hs none (chunked HeaderMap ks ++ body_trailers t ∷ []) 1
              false http.empty),
        rw (ep, eb, f) (rw (eu) (rw (b, x) refl)),
        relay_frames-whole m' hs t ks n message ek o r,
      )

  -- If the backend answers with a status in the headers and no body, and a new header map has no
  -- entries, then the response holds an empty message, the status and the metadata of these headers,
  -- and its own headers hold none of them.
  pub answer_proto-trailers_only :
      (hs : HeaderMap) (n : ℕ) (message : Bytes)
      → http.header_iter http.empty ≡ []
      → trailers_only http trailers hs ≡ true
      → read_status http http.empty hs ≡ ok (n, message)
      → let r = answer_proto http trailers in_time (response hs []) in
        (r.headers ≡ put http http.empty (codes "content-type") ct_proto)
        × (sent r.body ≡ (
          encode_response_body (trailer_codec trailers) [] (record {
            status_code = n;
            status_message = message;
            trailers = metadata_to_vec http (http.from_headers hs);
          }),
          finished,
        ))
  unfolding answer_proto proto_response relay_frames after_loop final_status fired cutoff
      trailing_headers trailer_chunk encode_response_body encode_trailer_block block put_u32
  answer_proto-trailers_only hs n message e o r = (rw o refl, rw (e, o, r, append-nil) refl)
