-- ===== src/Client/Tonic/Body.antt =====
-- What a generated stub reads of a response body (`poll_frame` of
-- rust/crates/grpc-webnext-client/src/tonic_service.rs).
use grpc_webnext.Prelude.{
  ℕ, zero, suc, ◌+◌, ◌≤◌, ◌≡◌, ◌⊎◌, inl, inr, List, [], ◌∷◌, ◌++◌, Option, none, some, Bool, true,
  false, Bytes, length, map, All, refl, sym, ap, ◌∙◌, subst, arith,
}
use grpc_webnext.Metadata.{Http}
use grpc_webnext.Metadata.Appended.{appended, taken, taken_with}
use grpc_webnext.Client.Streaming.{Chunk, chunk, broken, fired, tick}
use grpc_webnext.Client.Tonic.{
  Headers, Inner, Polled, pending, frame_data, frame_trailers, frame_error, end_of_stream,
  append_header, append_all, to_header_map, last_frame, poll_body, poll_by, poll_frame, poll_all,
}

-- What a poll shows of a body that does not fail.
pub shown : {H : Type 0} → Option Bytes → Polled H
shown none = pending
shown (some c) = frame_data c

pub yields : Option Bytes → Option Chunk
yields none = none
yields (some c) = some (chunk c)

-- The timer does not fire within some polls.
unfoldable pub Outlasts : Option ℕ → ℕ → Type 0
Outlasts none n = Unit
Outlasts (some k) n = n ≤ k

module _ (http : Http) (try : Headers http) where
  -- Nothing but the end follows the end.
  After : List (Polled http.HeaderMap) → Type 0
  After ps = All (λ p. p ≡ end_of_stream) ps

  -- Data and empty polls, then at most one trailer or error, then the end only.
  Shaped : List (Polled http.HeaderMap) → Type 0
  Shaped [] = Unit
  Shaped (pending ∷ ps) = Shaped ps
  Shaped (frame_data c ∷ ps) = Shaped ps
  Shaped (frame_trailers t ∷ ps) = After ps
  Shaped (frame_error s ∷ ps) = After ps
  Shaped (end_of_stream ∷ ps) = After ps

  poll_frame_ended :
      (inner : Inner) → inner.ended ≡ true → poll_frame http try inner ≡ (end_of_stream, inner)
  unfolding poll_frame poll_by
  poll_frame_ended inner e = ground (arith, e)

  poll_all_ended :
      (n : ℕ) (inner : Inner)
      → inner.ended ≡ true
      → After (poll_all http try n inner).0 × ((poll_all http try n inner).1 ≡ inner)
  unfolding poll_all After
  poll_all_ended zero inner e = (tt, refl)
  poll_all_ended (suc n) inner e =
      let (ps, q) = poll_all_ended n inner e in rw (poll_frame_ended inner e) ((refl, ps), q)

  is_going : Polled http.HeaderMap → Bool
  is_going pending = true
  is_going (frame_data c) = true
  is_going (frame_trailers t) = false
  is_going (frame_error s) = false
  is_going end_of_stream = false

  -- A poll shows data or nothing, or the body has ended.
  poll_frame_view :
      (inner : Inner)
      → (is_going (poll_frame http try inner).0 ≡ true)
        ⊎ ((poll_frame http try inner).1.ended ≡ true)
  unfolding poll_frame poll_by poll_body is_going
  poll_frame_view inner = go inner.ended refl (fired inner.deadline) inner.body
    where
      go :
          (b : Bool)
          → inner.ended ≡ b
          → (f : Bool) (body : List (Option Chunk))
          → (is_going (poll_by http try b f body inner).0 ≡ true)
            ⊎ ((poll_by http try b f body inner).1.ended ≡ true)
      go true e f body = inr e
      go false e true body = inr refl
      go false e false [] = inr refl
      go false e false (none ∷ body) = inl refl
      go false e false (some (chunk c) ∷ body) = inl refl
      go false e false (some (broken t) ∷ body) = inr refl

  After-Shaped : (ps : List (Polled http.HeaderMap)) → After ps → Shaped ps
  unfolding After Shaped
  After-Shaped [] h = tt
  After-Shaped (p ∷ ps) (e, h) = subst (λ q. Shaped (q ∷ ps)) (sym e) h

  Shaped-going :
      (p : Polled http.HeaderMap) (ps : List (Polled http.HeaderMap))
      → is_going p ≡ true
      → Shaped ps
      → Shaped (p ∷ ps)
  unfolding Shaped is_going
  Shaped-going pending ps e h = h
  Shaped-going (frame_data c) ps e h = h
  Shaped-going (frame_trailers t) ps e h = cc
  Shaped-going (frame_error s) ps e h = cc
  Shaped-going end_of_stream ps e h = cc

  Shaped-stop :
      (p : Polled http.HeaderMap) (ps : List (Polled http.HeaderMap)) → After ps → Shaped (p ∷ ps)
  unfolding Shaped
  Shaped-stop pending ps h = After-Shaped ps h
  Shaped-stop (frame_data c) ps h = After-Shaped ps h
  Shaped-stop (frame_trailers t) ps h = h
  Shaped-stop (frame_error s) ps h = h
  Shaped-stop end_of_stream ps h = h

  -- Whatever the body yields and whenever the timer fires, the polls of a response body give data and
  -- empty polls, then at most one frame of trailers or error, and from then on the end only.
  poll_all-Shaped : (n : ℕ) (inner : Inner) → Shaped (poll_all http try n inner).0
  unfolding poll_all Shaped
  poll_all-Shaped zero inner = tt
  poll_all-Shaped (suc n) inner = elim (poll_frame_view inner) [
    | inl e ↦ Shaped-going _ _ e (poll_all-Shaped n _)
    | inr e ↦ Shaped-stop _ _ (poll_all_ended n _ e).0
  ]

  poll_frame_last :
      (inner : Inner) → inner.deadline ≡ some 0 → (poll_frame http try inner).1.ended ≡ true
  unfolding poll_frame poll_by fired
  poll_frame_last inner e = go inner.ended refl inner.deadline e
    where
      go :
          (b : Bool)
          → inner.ended ≡ b
          → (d : Option ℕ) → d ≡ some 0
          → (poll_by http try b (fired d) inner.body inner).1.ended ≡ true
      go true q d e = q
      go false q none e = cc
      go false q (some zero) e = refl
      go false q (some (suc n)) e = absurd (let h : ◌≡◌ {A = ℕ} (suc n) 0 = cc in omega (arith, h))

  poll_body-deadline :
      (body : List (Option Chunk)) (inner : Inner)
      → (poll_body http try body inner).1.deadline ≡ inner.deadline
  unfolding poll_body
  poll_body-deadline [] inner = refl
  poll_body-deadline (none ∷ body) inner = refl
  poll_body-deadline (some (chunk c) ∷ body) inner = refl
  poll_body-deadline (some (broken t) ∷ body) inner = refl

  poll_frame-tick :
      (inner : Inner) (k : ℕ)
      → inner.deadline ≡ some (suc k)
      → ((poll_frame http try inner).1.ended ≡ true)
        ⊎ ((poll_frame http try inner).1.deadline ≡ some k)
  unfolding poll_frame poll_by tick
  poll_frame-tick inner k e = go inner.ended refl (fired inner.deadline)
    where
      go :
          (b : Bool)
          → inner.ended ≡ b
          → (f : Bool)
          → ((poll_by http try b f inner.body inner).1.ended ≡ true)
            ⊎ ((poll_by http try b f inner.body inner).1.deadline ≡ some k)
      go true q f = inl q
      go false q true = inl refl
      go false q false = inr (
          poll_body-deadline inner.body (record inner { deadline = tick inner.deadline })
          ∙ ap tick e)

  -- If the deadline is so many polls away, then one poll more ends the body, however long it is
  -- and however often it has nothing to give.
  pub poll_all-ended :
      (k : ℕ) (inner : Inner)
      → inner.deadline ≡ some k
      → (poll_all http try (suc k) inner).1.ended ≡ true
  unfolding poll_all
  poll_all-ended zero inner e = poll_frame_last inner e
  poll_all-ended (suc k) inner e = elim (poll_frame-tick inner k e) [
    | inl h ↦ ap (λ (i : Inner). i.ended) (poll_all_ended (suc k) _ h).1 ∙ h
    | inr h ↦ poll_all-ended k (poll_frame http try inner).1 h
  ]

  -- What ends a body: the trailers that the crate takes, appended in order, or nothing.
  abbrev pub ending : Option (List (Bytes × Bytes)) → Polled http.HeaderMap
  ending none = end_of_stream
  ending (some ts) =
      frame_trailers (appended http http.empty (taken http try.name_from try.value_from ts))

  append_all-taken :
      (ts : List (Bytes × Bytes)) (map : http.HeaderMap)
      → append_all http try map ts ≡ appended http map (taken http try.name_from try.value_from ts)
  unfolding append_all append_header appended taken
  append_all-taken [] map = refl
  append_all-taken ((n, v) ∷ ts) map = go (try.name_from n) (try.value_from v) (append_all-taken ts)
    where
      go :
          (name : Option Bytes) (value : Option http.HeaderValue)
          → ((m : http.HeaderMap)
              → append_all http try m ts
                ≡ appended http m (taken http try.name_from try.value_from ts))
          → append_all http try (append_header http try map name value) ts
            ≡ appended http map
                (taken_with http name value ++ taken http try.name_from try.value_from ts)
      go none value ih = ih map
      go (some name) none ih = ih map
      go (some name) (some value) ih = ih (http.append map name value)

  last_frame-ending :
      (trailers : Option (List (Bytes × Bytes))) → last_frame http try trailers ≡ ending trailers
  unfolding last_frame to_header_map
  last_frame-ending none = refl
  last_frame-ending (some ts) = ap frame_trailers (append_all-taken ts http.empty)

  -- If the timer outlasts the polls, and the polls of a body give chunks or nothing and no error, then
  -- the stub reads the chunks, unchanged and in order, then a header map of the trailers whose name and
  -- value the crate takes, in order, or the end where there are no trailers.
  pub poll_all-relays :
      (events : List (Option Bytes)) (trailers : Option (List (Bytes × Bytes)))
      (deadline : Option ℕ)
      → Outlasts deadline (length events + 1)
      → (poll_all http try (suc (length events)) (record {
        body = map yields events;
        trailers = trailers;
        deadline = deadline;
        ended = false;
      })).0
        ≡ map shown events ++ ending trailers ∷ []
  unfolding poll_all poll_frame poll_by poll_body Outlasts yields shown fired tick
  poll_all-relays events trailers none h = without events
    where
      without :
          (events : List (Option Bytes))
          → (poll_all http try (suc (length events)) (record {
            body = map yields events;
            trailers = trailers;
            deadline = none;
            ended = false;
          })).0
            ≡ map shown events ++ ending trailers ∷ []
      without [] = ap (λ p. p ∷ []) (last_frame-ending trailers)
      without (none ∷ events) = ap (λ ps. pending ∷ ps) (without events)
      without (some c ∷ events) = ap (λ ps. frame_data c ∷ ps) (without events)
  poll_all-relays events trailers (some k) h = within events k h
    where
      within :
          (events : List (Option Bytes)) (k : ℕ)
          → length events + 1 ≤ k
          → (poll_all http try (suc (length events)) (record {
            body = map yields events;
            trailers = trailers;
            deadline = some k;
            ended = false;
          })).0
            ≡ map shown events ++ ending trailers ∷ []
      within events zero h = absurd (omega arith)
      within [] (suc k) h = ap (λ p. p ∷ []) (last_frame-ending trailers)
      within (none ∷ events) (suc k) h = ap (λ ps. pending ∷ ps) (within events k (omega arith))
      within (some c ∷ events) (suc k) h =
          ap (λ ps. frame_data c ∷ ps) (within events k (omega arith))
