-- ===== src/Fetch/Request.antt =====
-- Request bodies of rust/crates/grpc-webnext/src/fetch.rs: `frame_upstream_request` and
-- `collect_bounded`.
pub mod Framing
pub mod Bounds
use grpc_webnext.Prelude.{
  ℕ, ◌+◌, List, [], ◌∷◌, ◌++◌, Bytes, codes, length, ltb, Bool, true, false, if◌then◌else◌,
}
use grpc_webnext.Wire.BigEndian.{get_u32}
use grpc_webnext.Wire.Fetch.{len_prefix}
use grpc_webnext.Client.Status.{Code}
use grpc_webnext.Backend.{BodyFrame, body_data, body_trailers, body_error}
use grpc_webnext.Metadata.{Http}
use grpc_webnext.Fetch.Response.{
  Response, Body, Ending, finished, broken, TrailerBytes, text_response, webnext_error, ct_json,
}

-- `Result<A, Response>`.
pub data Got (H A : Type 0) : Type 0 where
  got : A → Got H A
  answer : Response H → Got H A

-- What `lead` holds when the first loop ends, and the frames behind it.
pub data Lead (H : Type 0) : Type 0 where
  lead : Bytes → List (BodyFrame H) → Lead H
  unread : Bytes → Lead H

pub read_lead : {H : Type 0} → List (BodyFrame H) → Bytes → Lead H
read_lead [] held = lead held []
read_lead (body_data bytes ∷ fs) held =
    let more = read_lead fs (held ++ bytes) in
    if ltb (length held) len_prefix then more else lead held (body_data bytes ∷ fs)
read_lead (body_trailers t ∷ fs) held =
    let more = read_lead fs held in
    if ltb (length held) len_prefix then more else lead held (body_trailers t ∷ fs)
read_lead (body_error e ∷ fs) held =
    if ltb (length held) len_prefix then unread e else lead held (body_error e ∷ fs)

-- A chunk in front of a body.
abbrev pub chunk_before : Bytes → Body → Body
chunk_before c b = record { chunks = c ∷ b.chunks; ending = b.ending }

-- The loop of the stream: the data that is left, up to an error.
pub rest_of_body : {H : Type 0} → List (BodyFrame H) → Body
rest_of_body [] = record { chunks = []; ending = finished }
rest_of_body (body_data bytes ∷ fs) = chunk_before bytes (rest_of_body fs)
rest_of_body (body_trailers t ∷ fs) = rest_of_body fs
rest_of_body (body_error e ∷ fs) = record {
  chunks = [];
  ending = broken (codes "read body: " ++ e);
}

-- The compression flag, then the client's block as it came.
pub framed_body : {H : Type 0} → Bytes → List (BodyFrame H) → Body
framed_body held fs = chunk_before (0 ∷ []) (chunk_before held (rest_of_body fs))

module _ (http : Http) where
  open http use {HeaderMap}

  pub check_lead : ℕ → Bytes → List (BodyFrame HeaderMap) → Got HeaderMap Body
  check_lead max held fs =
      if ltb (length held) len_prefix
      then answer (text_response http 400 (codes "request body missing length prefix"))
      else if ltb max (get_u32 held)
      then answer (text_response http 413 (codes "request message exceeds size limit"))
      else got (framed_body held fs)

  pub frame_upstream_request : List (BodyFrame HeaderMap) → ℕ → Got HeaderMap Body
  frame_upstream_request body max = elim (read_lead body []) [
    | unread e ↦ answer (text_response http 400 (codes "read body: " ++ e))
    | lead held fs ↦ check_lead max held fs
  ]

  module _ (trailers : TrailerBytes) where
    -- The loop of `collect_bounded` from what is collected.
    pub collect_from : ℕ → List (BodyFrame HeaderMap) → Bytes → Got HeaderMap Bytes
    collect_from max [] buf = got buf
    collect_from max (body_data bytes ∷ fs) buf =
        let more = collect_from max fs (buf ++ bytes) in
        if ltb max (length buf + length bytes)
        then answer (
            webnext_error http trailers ct_json Code.resource_exhausted
              (codes "request message exceeds size limit"))
        else more
    collect_from max (body_trailers t ∷ fs) buf = collect_from max fs buf
    collect_from max (body_error e ∷ fs) buf =
        answer (webnext_error http trailers ct_json Code.internal (codes "read body: " ++ e))

    pub collect_bounded : List (BodyFrame HeaderMap) → ℕ → Got HeaderMap Bytes
    collect_bounded body max = collect_from max body []
