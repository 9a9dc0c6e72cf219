-- ===== src/Client/Streaming/Progress.antt =====
-- That reading a response stream of the client comes to an end
-- (rust/crates/grpc-webnext-client/src/client.rs).
use grpc_webnext.Prelude.{
  ℕ, zero, suc, ◌+◌, ◌≤◌, ◌<◌, ◌≡◌, ◌≢◌, List, [], ◌∷◌, ◌++◌, Option, none, some, Bool, true, false,
  Bytes, codes, length, is_empty, if◌then◌else◌, refl, ap, arith, length-append,
}
use grpc_webnext.Client.Status.{Code, deadline_exceeded}
use grpc_webnext.Client.Deframer.{Pushed, messages, error, no_fuel, push}
use grpc_webnext.Client.Deframer.Agrees.{push-ne-no_fuel}
use grpc_webnext.Client.Deframer.Size.{push-size}
use grpc_webnext.Client.Metadata.{Base64}
use grpc_webnext.Client.Terminal.{Status, status_new, Texts}
use grpc_webnext.Client.Streaming.{
  Chunk, chunk, broken, Streaming, Answer, message, over, failure, unfinished, fired, tick, fail,
  end_of_body, ready_or, pushed, message_from, next_message, Finished, finished, cut_off, stuck,
  finish_loop, status,
}

-- The bytes that a body still yields.
abbrev pub body_bytes : List Chunk → ℕ
body_bytes [] = 0
body_bytes (chunk c ∷ rest) = length c + body_bytes rest
body_bytes (broken e ∷ rest) = body_bytes rest

-- No more messages than this are to come.
abbrev pub size : Streaming → ℕ
size s = length s.ready + (length s.deframer.buffer + body_bytes s.body)

-- A message that is returned leaves fewer to come.
Shrinks : ℕ → Answer × Streaming → Type 0
Shrinks n (message m, s) = size s < n
Shrinks n (unfinished, s) = unfinished ≡ over
Shrinks n (over, s) = over ≡ over
Shrinks n (failure e, s) = over ≡ over

Shrinks-le : (a b : ℕ) (r : Answer × Streaming) → a ≤ b → Shrinks a r → Shrinks b r
unfolding Shrinks
Shrinks-le a b (message m, s) h k = omega (arith, h, k)
Shrinks-le a b (unfinished, s) h k = k
Shrinks-le a b (over, s) h k = k
Shrinks-le a b (failure e, s) h k = k

ready_or-Shrinks :
    (s : Streaming) (r : Answer × Streaming) (n : ℕ)
    → size s ≤ n
    → (s.ready ≡ [] → Shrinks n r)
    → Shrinks n (ready_or s r)
unfolding ready_or Shrinks fail
ready_or-Shrinks s r n h k = go s.ready refl s.failed s.ended (fired s.deadline)
  where
    go :
        (ms : List Bytes)
        → s.ready ≡ ms
        → (o : Option Status) (e f : Bool)
        → Shrinks n (elim ms [
          | m ∷ ms ↦ (message m, record s { ready = ms })
          | [] ↦ elim o [
            | some status ↦ (failure status, s)
            | none ↦
                if e
                then (over, s)
                else if f
                then fail s (status_new deadline_exceeded (codes "deadline exceeded"))
                else r
          ]
        ])
    go (m ∷ ms) q o e f = omega (arith, h, ap length q)
    go [] q (some st) e f = refl
    go [] q none true f = refl
    go [] q none false true = refl
    go [] q none false false = k q

end_of_body-Shrinks : (s : Streaming) (n : ℕ) → Shrinks n (end_of_body s)
unfolding end_of_body fail Shrinks
end_of_body-Shrinks s n = go (is_empty s.deframer.buffer)
  where
    go :
        (b : Bool)
        → Shrinks n (
            if b
            then (over, record s { ended = true })
            else fail s
                (status_new Code.internal (codes "response body ended mid-message (truncated)")))
    go true = refl
    go false = refl

module _ (describe : Code → Bytes) where
  message_from-Shrinks :
      (body : List Chunk) (s : Streaming)
      → s.body ≡ body
      → Shrinks (size s) (message_from describe body s)
  unfolding message_from pushed fail Shrinks
  message_from-Shrinks [] s e =
      ready_or-Shrinks s (end_of_body s) (size s) (omega arith)
        (λ q. end_of_body-Shrinks s (size s))
  message_from-Shrinks (broken x ∷ rest) s e =
      ready_or-Shrinks s _ (size s) (omega arith) (λ q. refl)
  message_from-Shrinks (chunk c ∷ rest) s e =
      ready_or-Shrinks s _ (size s) (omega arith)
        (λ q. go (push s.deframer c) refl q (λ t. message_from-Shrinks rest t))
    where
      go :
          (p : Pushed)
          → push s.deframer c ≡ p
          → s.ready ≡ []
          → ((t : Streaming) → t.body ≡ rest → Shrinks (size t) (message_from describe rest t))
          → Shrinks (size s) (pushed describe p s rest (message_from describe rest))
      go no_fuel f q ih = absurd (push-ne-no_fuel s.deframer c f)
      go (error code d) f q ih = refl
      go (messages ms d) f q ih =
          let t : Streaming = record s {
            body = rest;
            deframer = d;
            ready = s.ready ++ ms;
            deadline = tick s.deadline;
          } in
          let less : size t ≤ size s = omega (
            arith,
            push-size s.deframer c ms d f,
            length-append s.ready ms,
            ap length q,
            ap body_bytes e,
          ) in
          Shrinks-le (size t) (size s) (message_from describe rest t) less (ih t refl)

  next_message-Shrinks : (s : Streaming) → Shrinks (size s) (next_message describe s)
  unfolding next_message
  next_message-Shrinks s = message_from-Shrinks s.body s refl

  module _ (base64 : Base64) (texts : Texts) where
    -- Reading a stream to its end takes no more rounds than there are messages that are ready and bytes
    -- that are held back or still to come: with a round more, the loop of `finish` returns.
    pub finish_loop-returns :
        (fuel : ℕ) (s : Streaming) (out : List Bytes)
        → length s.ready + (length s.deframer.buffer + body_bytes s.body) < fuel
        → finish_loop describe base64 texts fuel s out ≢ stuck
    unfolding finish_loop Shrinks
    finish_loop-returns zero s out h = absurd (omega arith)
    finish_loop-returns (suc fuel) s out h =
        go (next_message describe s) (next_message-Shrinks s) (finish_loop-returns fuel)
      where
        go :
            (r : Answer × Streaming)
            → Shrinks (size s) r
            → ((t : Streaming) (o : List Bytes)
                → size t < fuel
                → finish_loop describe base64 texts fuel t o ≢ stuck)
            → ◌≢◌ {A = Finished}
                (elim r.0 [
                  | message m ↦ finish_loop describe base64 texts fuel r.1 (out ++ m ∷ [])
                  | over ↦ finished out (status describe base64 texts r.1)
                  | failure st ↦ cut_off out st
                  | unfinished ↦ stuck
                ])
                stuck
        go (message m, t) k ih e = ih t (out ++ m ∷ []) (omega (arith, h, k)) e
        go (over, t) k ih e = cc
        go (failure st, t) k ih e = cc
        go (unfinished, t) k ih e = cc
