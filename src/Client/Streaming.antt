-- ===== src/Client/Streaming.antt =====
-- A response stream of the client (`Streaming` of rust/crates/grpc-webnext-client/src/client.rs). The
-- body is the list of what it still yields, and the timer of the deadline is given by the number of
-- reads before it fires.
pub mod Progress
pub mod Delivery
use grpc_webnext.Prelude.{
  ℕ, zero, suc, List, [], ◌∷◌, ◌++◌, Option, none, some, Bool, true, false, not, Bytes, codes,
  length, is_empty, ltb, if◌then◌else◌,
}
use grpc_webnext.Client.Status.{Code, deadline_exceeded, internal, unavailable}
use grpc_webnext.Client.Deframer
use grpc_webnext.Client.Deframer.{Deframer, Pushed, messages, error, no_fuel, push, pending}
use grpc_webnext.Client.Metadata
use grpc_webnext.Client.Metadata.{Metadata, Base64}
use grpc_webnext.Client.Terminal.{Status, status_new, Texts, from_headers}

-- What `body.next()` yields before the end: a chunk, or an error by its text.
pub data Chunk : Type 0 where
  chunk : Bytes → Chunk
  broken : Bytes → Chunk

pub record Streaming : Type 0 where
  pub headers : Metadata
  pub body : List Chunk
  pub trailers : Option (List (Bytes × Bytes))
  pub deframer : Deframer
  pub ready : List Bytes
  pub ended : Bool
  pub failed : Option Status
  pub deadline : Option ℕ

-- What `message()` returns.
pub data Answer : Type 0 where
  message : Bytes → Answer
  over : Answer
  failure : Status → Answer
  unfinished : Answer

-- How `finish()` ends, with the messages that it drops: without an error, with one, or out of fuel.
pub data Finished : Type 0 where
  finished : List Bytes → Status → Finished
  cut_off : List Bytes → Status → Finished
  stuck : Finished

unfoldable pub fired : Option ℕ → Bool
fired (some zero) = true
fired timer = false

unfoldable pub tick : Option ℕ → Option ℕ
tick none = none
tick (some zero) = some zero
tick (some (suc n)) = some n

-- `Err(self.fail(status))`.
pub fail : Streaming → Status → Answer × Streaming
fail s status = (failure status, record s { ended = true; failed = some status })

-- The body is over: it must not stop within a message.
unfoldable pub end_of_body : Streaming → Answer × Streaming
unfolding fail
end_of_body s =
    if is_empty s.deframer.buffer
    then (over, record s { ended = true })
    else fail s (status_new internal (codes "response body ended mid-message (truncated)"))

-- The checks at the top of the loop: a message that is ready, an error, the end, and then the timer.
unfoldable pub ready_or : Streaming → Answer × Streaming → Answer × Streaming
unfolding fail
ready_or s read = elim s.ready [
  | m ∷ ms ↦ (message m, record s { ready = ms })
  | [] ↦ elim s.failed [
    | some status ↦ (failure status, s)
    | none ↦
        if s.ended
        then (over, s)
        else if fired s.deadline
        then fail s (status_new deadline_exceeded (codes "deadline exceeded"))
        else read
  ]
]

-- `describe` gives the texts of the deframer's errors.
module _ (describe : Code → Bytes) where
  -- A chunk is pushed, and the loop goes on.
  unfoldable pub pushed :
      Pushed → Streaming → List Chunk → (Streaming → Answer × Streaming) → Answer × Streaming
  unfolding fail
  pushed (messages ms d) s rest more =
      more
        (record s { body = rest; deframer = d; ready = s.ready ++ ms; deadline = tick s.deadline })
  pushed (error code d) s rest more =
      fail (record s { body = rest; deframer = d; deadline = tick s.deadline })
        (status_new code (describe code))
  pushed no_fuel s rest more = (unfinished, s)

  -- The loop of `message()`, over what the body yields.
  unfoldable pub message_from : List Chunk → Streaming → Answer × Streaming
  unfolding ready_or end_of_body pushed fail
  message_from [] s = ready_or s (end_of_body s)
  message_from (chunk c ∷ rest) s =
      ready_or s (pushed (push s.deframer c) s rest (message_from rest))
  message_from (broken e ∷ rest) s = ready_or s (
      fail (record s { body = rest; deadline = tick s.deadline })
        (status_new unavailable (codes "stream failed: " ++ e)))

  unfoldable pub next_message : Streaming → Answer × Streaming
  next_message s = message_from s.body s

  module _ (base64 : Base64) (texts : Texts) where
    unfoldable pub trailers_status : Option (List (Bytes × Bytes)) → Status
    trailers_status none = status_new internal (codes "response ended without trailers")
    trailers_status (some trailers) = elim (from_headers base64 texts trailers) [
      | some status ↦ status
      | none ↦ status_new internal (codes "response trailers carried no grpc-status")
    ]

    pub status : Streaming → Status
    status s = elim s.failed [ some st ↦ st | none ↦ trailers_status s.trailers ]

    -- The loop of `finish()`.
    unfoldable pub finish_loop : ℕ → Streaming → List Bytes → Finished
    unfolding status
    finish_loop zero s out = stuck
    finish_loop (suc fuel) s out =
        let (answer, s') = next_message s in
        elim answer [
          | message m ↦ finish_loop fuel s' (out ++ m ∷ [])
          | over ↦ finished out (status s')
          | failure st ↦ cut_off out st
          | unfinished ↦ stuck
        ]
