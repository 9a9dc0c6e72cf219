-- ===== src/Reflect/Fetch/Closed.antt =====
-- That a reflection exchange ends with every file that is depended on (`reflection_driver!` of
-- rust/crates/grpc-webnext/src/reflect.rs).
use grpc_webnext.Prelude.{
  ℕ, zero, suc, ◌+◌, ◌-◌, ◌≤◌, ◌≡◌, ◌==◌, ◌⊎◌, inl, inr, List, [], ◌∷◌, ◌++◌, true, false, Bytes,
  map, All, All-append, length, refl, sym, ap, ◌∙◌, append_assoc, map-append, append-nil,
  length-append, arith,
}
use grpc_webnext.Reflect.{Files}
use grpc_webnext.Reflect.Names.{Among, names}
use grpc_webnext.Reflect.Fetch.{
  Request, file_by_filename, file_containing_symbol, Response, descriptors, Inbound, answer, stream,
  loaded, send, Walk, Wire, note_files, on_response, fetch_loop, fetch,
}
use grpc_webnext.Reflect.Fetch.Missing.{missing, missing_all}
use grpc_webnext.Reflect.Fetch.Asked.{Covered, Settled}
use grpc_webnext.Reflect.Fetch.Notes.{Readable, names_of, FiledAll, note_files-FiledAll}

-- Each file that a file depends on is there.
unfoldable pub Closed : Files → Type 0
Closed files = All (λ f. All (λ d. Among d (names files)) f.1.deps) files

-- A request is answered with files that depend on known files only.
pub record Offer (wire : Wire) (us : List Bytes) (r : Response) : Type 0 where
  pub raws : List Bytes
  pub answers : r ≡ descriptors raws
  pub readable : All (Readable wire us) raws

-- A service that knows some files, the one of the symbol and all that a known file depends on.
pub record Reflects (wire : Wire) (us : List Bytes) (symbol : Bytes) (serve : Request → Response)
    : Type 0 where
  pub opened : (q : Request) → wire.is_open q ≡ true
  pub root : Offer wire us (serve (file_containing_symbol symbol))
  pub offer : (d : Bytes) → Among d us → Offer wire us (serve (file_by_filename d))
  pub named :
      (d : Bytes) (k : Among d us)
      → Among d (names_of wire us (offer d k).raws (offer d k).readable)

drop-Covered :
    (d : Bytes) (fs asked ds : List Bytes)
    → Among d fs
    → All (Covered fs (d ∷ asked)) ds
    → All (Covered fs asked) ds
unfolding Covered
drop-Covered d fs asked [] k h = tt
drop-Covered d fs asked (x ∷ ds) k (inl c, hs) = (inl c, drop-Covered d fs asked ds k hs)
drop-Covered d fs asked (x ∷ ds) k (inr c, hs) = (now x d k c, drop-Covered d fs asked ds k hs)
  where
    now : (x d : Bytes) → Among d fs → Among x (d ∷ asked) → (Among x fs) ⊎ (Among x asked)
    now x d k (Among.here _) = inl k
    now x d k (Among.there _ _ c) = inr c

drop_files :
    (d : Bytes) (fs asked : List Bytes)
    → Among d fs
    → (files : Files) → All (λ f. All (Covered fs (d ∷ asked)) f.1.deps) files
    → All (λ f. All (Covered fs asked) f.1.deps) files
drop_files d fs asked k [] h = tt
drop_files d fs asked k (f ∷ files) (h, hs) =
    (drop-Covered d fs asked f.1.deps k h, drop_files d fs asked k files hs)

-- A name that has come is not asked for any more.
drop_Settled :
    (d : Bytes) (asked : List Bytes) (w : Walk)
    → Among d (names w.files)
    → Settled (d ∷ asked) w
    → Settled asked w
unfolding Settled
drop_Settled d asked w k (s, t) =
    (drop_files d (names w.files) asked k w.files s, drop-Covered d _ asked w.requested k t)

none_asked : (fs ds : List Bytes) → All (Covered fs []) ds → All (λ d. Among d fs) ds
unfolding Covered
none_asked fs [] h = tt
none_asked fs (d ∷ ds) (inl c, hs) = (c, none_asked fs ds hs)
none_asked fs (d ∷ ds) (inr c, hs) = elim c [ ]

Settled-Closed : (w : Walk) → Settled [] w → Closed w.files
unfolding Settled Closed
Settled-Closed w (s, t) = go w.files s
  where
    go :
        (files : Files)
        → All (λ f. All (Covered (names w.files) []) f.1.deps) files
        → All (λ f. All (λ d. Among d (names w.files)) f.1.deps) files
    go [] h = tt
    go (f ∷ files) (h, hs) = (none_asked (names w.files) f.1.deps h, go files hs)

module _ (wire : Wire) (us : List Bytes) (symbol : Bytes) (serve : Request → Response)
    (reflects : Reflects wire us symbol serve) where
  replies : List Bytes → List Inbound
  replies ds = map (λ q. answer (serve q)) (map file_by_filename ds)

  -- A run of the loop to its end; `q` was asked for before it, and `later` in it.
  record Run (q : List Bytes) (w : Walk) : Type 0 where
    later : List Bytes
    after : Walk
    result : fetch_loop wire (replies (q ++ later)) w ≡ loaded after
    sent : after.sent ≡ w.sent ++ map file_by_filename later
    few : length later ≤ missing us w.requested
    kept : (n : Bytes) → Among n (names w.files) → Among n (names after.files)
    closed : Closed after.files

  -- One answer is taken.
  popped : Walk → Walk
  popped w = record w { pending = w.pending - 1 }

  loop_answer :
      (r : Response) (raws : List Bytes) (inbound : List Inbound) (w after : Walk) (k : ℕ)
      → w.pending ≡ suc k
      → r ≡ descriptors raws
      → note_files wire raws (popped w) ≡ loaded after
      → fetch_loop wire (answer r ∷ inbound) w ≡ fetch_loop wire inbound after
  unfolding fetch_loop popped on_response
  loop_answer r raws inbound w after k p a n =
      let more : (w.pending == 0) ≡ false = ground arith in rw (more, a, n) refl

  Run-done : (w : Walk) → w.pending ≡ 0 → Settled [] w → Run [] w
  unfolding fetch_loop replies
  Run-done w p s =
      let none_left : (w.pending == 0) ≡ true = ground arith in
      record {
        later = [];
        after = w;
        result = rw none_left refl;
        sent = sym (append-nil w.sent);
        few = omega arith;
        kept = λ n h. h;
        closed = Settled-Closed w s;
      }

  -- An answer, and a run behind it.
  Run-answer :
      (d : Bytes) (q : List Bytes) (w : Walk) (known : Among d us)
      → w.pending ≡ suc (length q)
      → (ns : List Bytes)
        (f : FiledAll wire reflects.opened us
          (d ∷ q)
          ns
          (popped w)
          (note_files wire (reflects.offer d known).raws (popped w)))
      → Run (q ++ f.noted.more) f.after
      → Run (d ∷ q) w
  unfolding replies popped
  Run-answer d q w known p ns f run = record {
    later = f.noted.more ++ run.later;
    after = run.after;
    result =
        loop_answer (serve (file_by_filename d)) (reflects.offer d known).raws
          (replies (q ++ (f.noted.more ++ run.later))) w f.after (length q) p
          (reflects.offer d known).answers f.result
        ∙ ap (λ l. fetch_loop wire (replies l) f.after)
            (sym (append_assoc q f.noted.more run.later))
        ∙ run.result;
    sent =
        run.sent
        ∙ ap (λ l. l ++ map file_by_filename run.later) f.noted.sent
        ∙ append_assoc w.sent _ _
        ∙ ap (λ l. w.sent ++ l) (sym (map-append file_by_filename f.noted.more run.later));
    few = omega (arith, run.few, f.noted.fewer, length-append f.noted.more run.later);
    kept = λ n h. run.kept n (f.noted.kept n h);
    closed = run.closed;
  }

  Run-queue :
      (fuel : ℕ) (q : List Bytes) (w : Walk)
      → length q + missing us w.requested ≤ fuel
      → w.pending ≡ length q
      → Settled q w
      → All (λ d. Among d us) q
      → Run q w
  unfolding popped Settled
  Run-queue fuel [] w m p s ks = Run-done w p s
  Run-queue zero (d ∷ q) w m p s ks = absurd (omega arith)
  Run-queue (suc fuel) (d ∷ q) w m p s (k, ks) =
      let o = reflects.offer d k in
      let f = note_files-FiledAll wire reflects.opened us (d ∷ q) o.raws (popped w) o.readable s in
      let here = f.stand d (reflects.named d k) in
      Run-answer d q w k p (names_of wire us o.raws o.readable) f (
        Run-queue fuel (q ++ f.noted.more) f.after
          (omega (arith, p, m, f.noted.fewer, length-append q f.noted.more))
          (omega (arith, p, f.noted.pending, length-append q f.noted.more))
          (drop_Settled d (q ++ f.noted.more) f.after here f.noted.settled)
          (All-append _ q f.noted.more ks f.noted.known))

length-map : (f : Bytes → Request) (ds : List Bytes) → length (map f ds) ≡ length ds
length-map f [] = refl
length-map f (d ∷ ds) = omega (arith, length-map f ds)

-- If the requests can be sent, and a service answers the request for the symbol and for every file
-- that a known file depends on with descriptors that can be read, depend on known files only and,
-- for a file, are of that name, then the exchange ends: with the answers to the requests it has made,
-- in their order, the driver returns files that hold the ones of the symbol and all that any of them
-- depends on, after at most one request more than there are known files.
pub fetch-Closed :
    (wire : Wire) (us : List Bytes) (symbol : Bytes) (serve : Request → Response)
    (reflects : Reflects wire us symbol serve)
    → (w : Walk) × (fetch wire (stream (map (λ q. answer (serve q)) w.sent)) symbol ≡ loaded w)
      × (length w.sent ≤ length us + 1)
      × ((n : Bytes)
          → Among n (names_of wire us reflects.root.raws reflects.root.readable)
          → Among n (names w.files))
      × Closed w.files
unfolding fetch send replies popped Settled
fetch-Closed wire us symbol serve reflects =
    let root = reflects.root in
    let begun : Walk = record {
      files = [];
      requested = [];
      pending = 1;
      sent = file_containing_symbol symbol ∷ [];
    } in
    let f =
      note_files-FiledAll wire reflects.opened us [] root.raws
        (popped wire us symbol serve reflects begun) root.readable (tt, tt) in
    let run =
      Run-queue wire us symbol serve reflects (length f.noted.more + missing us f.after.requested)
        f.noted.more f.after (omega arith) (omega (arith, f.noted.pending)) f.noted.settled
        f.noted.known in
    let same : run.after.sent
        ≡ file_containing_symbol symbol ∷ map file_by_filename (f.noted.more ++ run.later) =
      run.sent
      ∙ ap (λ l. l ++ map file_by_filename run.later) f.noted.sent
      ∙ ap (λ l. file_containing_symbol symbol ∷ l)
          (sym (map-append file_by_filename f.noted.more run.later)) in
    (
      run.after,
      rw (reflects.opened (file_containing_symbol symbol)) (
          ap (λ l. fetch_loop wire (map (λ q. answer (serve q)) l) begun) same
          ∙ loop_answer wire us symbol serve reflects (serve (file_containing_symbol symbol))
              root.raws (replies wire us symbol serve reflects (f.noted.more ++ run.later)) begun
              f.after 0 refl root.answers f.result
          ∙ run.result),
      omega (
        arith,
        ap length same,
        length-map file_by_filename (f.noted.more ++ run.later),
        length-append f.noted.more run.later,
        f.noted.fewer,
        run.few,
        missing_all us,
      ),
      λ n h. run.kept n (f.stand n h),
      run.closed,
    )
