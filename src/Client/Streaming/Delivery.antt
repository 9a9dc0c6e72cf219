-- ===== src/Client/Streaming/Delivery.antt =====
-- What a response stream of the client delivers (rust/crates/grpc-webnext-client/src/client.rs),
-- against the frames that the server sends.
use grpc_webnext.Prelude.{
  ℕ, zero, suc, ◌<◌, ◌^◌, ◌≡◌, List, [], ◌∷◌, ◌++◌, Option, none, some, Bool, true, false, Bytes,
  codes, length, is_empty, map, flatten, All, if◌then◌else◌, refl, ap, sym, subst, ◌∙◌,
  append_assoc, append-nil,
}
use grpc_webnext.Wire.Grpc
use grpc_webnext.Wire.Grpc.{frame, pump, pull_all}
use grpc_webnext.Wire.Grpc.Chunks.{pump-frames}
use grpc_webnext.Client.Status.{Code, deadline_exceeded}
use grpc_webnext.Client.Deframer.{Pushed, messages, error, no_fuel, push}
use grpc_webnext.Client.Deframer.Agrees.{server, push-pull_all}
use grpc_webnext.Client.Metadata.{Base64}
use grpc_webnext.Client.Terminal.{Status, status_new, Texts}
use grpc_webnext.Client.Streaming.{
  chunk, Streaming, Answer, message, over, failure, unfinished, fired, tick, fail, end_of_body,
  ready_or, pushed, message_from, next_message, Finished, finished, cut_off, stuck, finish_loop,
  status,
}

-- What is delivered and what is left are the messages and the rest of the whole body.
record Holds (all : List Bytes × Grpc.Deframer) (out : List Bytes) (s : Streaming) : Type 0 where
  chunks : List Bytes
  rest : s.body ≡ map chunk chunks
  open_still : s.ended ≡ false
  reads : pump chunks (server s.deframer.buffer) (out ++ s.ready) ≡ all

Delivers : List Bytes × Grpc.Deframer → List Bytes → Answer × Streaming → Type 0
Delivers all out (message m, s) = Holds all (out ++ m ∷ []) s
Delivers all out (over, s) = all ≡ (out, Grpc.new)
Delivers all out (failure e, s) = over ≡ over
Delivers all out (unfinished, s) = over ≡ over

is_empty-nil : (b : Bytes) → is_empty b ≡ true → b ≡ []
is_empty-nil [] e = refl
is_empty-nil (x ∷ b) e = cc

ready_or-Delivers :
    (all : List Bytes × Grpc.Deframer) (out : List Bytes) (s : Streaming) (r : Answer × Streaming)
    → Holds all out s
    → (s.ready ≡ [] → Delivers all out r)
    → Delivers all out (ready_or s r)
unfolding ready_or Delivers fail
ready_or-Delivers all out s r h k = go s.ready refl s.failed s.ended h.open_still (fired s.deadline)
  where
    go :
        (ms : List Bytes)
        → s.ready ≡ ms
        → (o : Option Status) (e : Bool) → e ≡ false
        → (f : Bool)
        → Delivers all out (elim ms [
          | m ∷ ms ↦ (message m, record s { ready = ms })
          | [] ↦ elim o [
            | some status ↦ (failure status, s)
            | none ↦
                if e
                then (over, s)
                else if f
                then fail s (status_new deadline_exceeded (codes "deadline exceeded"))
                else r
          ]
        ])
    go (m ∷ ms) q o e n f = record {
      chunks = h.chunks;
      rest = h.rest;
      open_still = h.open_still;
      reads =
          ap (pump h.chunks (server s.deframer.buffer))
            (append_assoc out (m ∷ []) ms ∙ ap (λ x. out ++ x) (sym q))
          ∙ h.reads;
    }
    go [] q (some st) e n f = refl
    go [] q none true n f = cc
    go [] q none false n true = refl
    go [] q none false n false = k q

end_of_body-Delivers :
    (all : List Bytes × Grpc.Deframer) (out : List Bytes) (s : Streaming)
    → pump [] (server s.deframer.buffer) out ≡ all
    → Delivers all out (end_of_body s)
unfolding end_of_body Delivers fail Grpc.pump Grpc.new
end_of_body-Delivers all out s e = go (is_empty s.deframer.buffer) refl
  where
    go :
        (b : Bool)
        → is_empty s.deframer.buffer ≡ b
        → Delivers all out (
            if b
            then (over, record s { ended = true })
            else fail s
                (status_new Code.internal (codes "response body ended mid-message (truncated)")))
    go true q = sym e ∙ ap (λ b. (out, server b)) (is_empty-nil s.deframer.buffer q)
    go false q = refl

module _ (describe : Code → Bytes) where
  message_from-Delivers :
      (cs : List Bytes) (all : List Bytes × Grpc.Deframer) (out : List Bytes) (s : Streaming)
      → s.body ≡ map chunk cs
      → s.ended ≡ false
      → pump cs (server s.deframer.buffer) (out ++ s.ready) ≡ all
      → Delivers all out (message_from describe (map chunk cs) s)
  unfolding message_from pushed fail Delivers
  message_from-Delivers [] all out s e n p =
      ready_or-Delivers all out s (end_of_body s)
        (record { chunks = []; rest = e; open_still = n; reads = p })
        (λ q. end_of_body-Delivers all out s (
          ap (pump [] (server s.deframer.buffer))
            (sym (append-nil out) ∙ ap (λ x. out ++ x) (sym q))
          ∙ p))
  message_from-Delivers (c ∷ cs) all out s e n p =
      ready_or-Delivers all out s _
        (record { chunks = c ∷ cs; rest = e; open_still = n; reads = p })
        (λ q. go (push s.deframer c) refl q (λ t. message_from-Delivers cs all out t))
    where
      go :
          (r : Pushed)
          → push s.deframer c ≡ r
          → s.ready ≡ []
          → ((t : Streaming)
              → t.body ≡ map chunk cs
              → t.ended ≡ false
              → pump cs (server t.deframer.buffer) (out ++ t.ready) ≡ all
              → Delivers all out (message_from describe (map chunk cs) t))
          → Delivers all out
              (pushed describe r s (map chunk cs) (message_from describe (map chunk cs)))
      go no_fuel f q ih = refl
      go (error code d) f q ih = refl
      go (messages ms d) f q ih =
          unfold Grpc.pump Grpc.push in
          let (a, k) = push-pull_all s.deframer c ms d f in
          ih
            (record s {
              body = map chunk cs;
              deframer = d;
              ready = s.ready ++ ms;
              deadline = tick s.deadline;
            })
            refl n
            (ap (pump cs (server d.buffer)) (sym (append_assoc out s.ready ms))
              ∙ ap (λ r. pump cs r.1 ((out ++ s.ready) ++ r.0)) (sym a)
              ∙ p)

  next_message-Delivers :
      (all : List Bytes × Grpc.Deframer) (out : List Bytes) (s : Streaming)
      → Holds all out s
      → Delivers all out (next_message describe s)
  unfolding next_message
  next_message-Delivers all out s h =
      subst (λ b. Delivers all out (message_from describe b s)) (sym h.rest)
        (message_from-Delivers h.chunks all out s h.rest h.open_still h.reads)

  module _ (base64 : Base64) (texts : Texts) where
    finish_loop-Delivers :
        (fuel : ℕ) (all : List Bytes × Grpc.Deframer) (s : Streaming) (out ms : List Bytes)
        (st : Status)
        → Holds all out s
        → finish_loop describe base64 texts fuel s out ≡ finished ms st
        → all ≡ (ms, Grpc.new)
    unfolding finish_loop
    finish_loop-Delivers zero all s out ms st h e = cc
    finish_loop-Delivers (suc fuel) all s out ms st h e =
        go (next_message describe s) (next_message-Delivers all out s h) e
          (finish_loop-Delivers fuel all)
      where
        go :
            (r : Answer × Streaming)
            → Delivers all out r
            → ◌≡◌ {A = Finished}
                (elim r.0 [
                  | message m ↦ finish_loop describe base64 texts fuel r.1 (out ++ m ∷ [])
                  | over ↦ finished out (status describe base64 texts r.1)
                  | failure st ↦ cut_off out st
                  | unfinished ↦ stuck
                ])
                (finished ms st)
            → ((t : Streaming) (o ms : List Bytes) (st : Status)
                → Holds all o t
                → finish_loop describe base64 texts fuel t o ≡ finished ms st
                → all ≡ (ms, Grpc.new))
            → all ≡ (ms, Grpc.new)
        go (message m, t) k q ih = unfold Delivers in ih t (out ++ m ∷ []) ms st k q
        go (over, t) k q ih =
            unfold Delivers in let o : out ≡ ms = cc in k ∙ ap (λ x. (x, Grpc.new)) o
        go (failure x, t) k q ih = cc
        go (unfinished, t) k q ih = cc

    -- If a stream that has just been opened is read to its end without an error, and its body is made of
    -- the server's frames of messages shorter than 2^32 bytes, cut into any chunks, then what was
    -- returned is these messages, all of them, in their order.
    pub finish_loop-delivers :
        (fuel : ℕ) (s : Streaming) (cs ms out : List Bytes) (st : Status)
        → s.body ≡ map chunk cs
        → s.ended ≡ false
        → s.ready ≡ []
        → s.deframer.buffer ≡ []
        → flatten cs ≡ flatten (map frame ms)
        → All (λ m. length m < 2 ^ 32) ms
        → finish_loop describe base64 texts fuel s [] ≡ finished out st
        → out ≡ ms
    unfolding Grpc.new
    finish_loop-delivers fuel s cs ms out st eb ee er ed ef h e =
        let whole =
          finish_loop-Delivers fuel (ms, Grpc.new) s [] out st
            (record {
              chunks = cs;
              rest = eb;
              open_still = ee;
              reads = rw (er, ed) (pump-frames ms cs h ef);
            })
            e in
        ap (λ r. r.0) (sym whole)
