-- ===== src/Reflect/Fetch/Asked.antt =====
-- The files that the driver of a reflection exchange asks for (`reflection_driver!` of
-- rust/crates/grpc-webnext/src/reflect.rs).
use grpc_webnext.Prelude.{
  ◌+◌, ◌≤◌, ◌≡◌, ◌⊎◌, inl, inr, List, [], ◌∷◌, ◌++◌, Bool, true, false, not, ◌&&◌, Bytes, map, any,
  All, All-append, length, str_eq, if◌then◌else◌, refl, sym, ap, subst, ◌∙◌, append_assoc,
  append-nil, map-append, length-append, arith,
}
use grpc_webnext.Reflect.{Files}
use grpc_webnext.Reflect.Names.{Among, here, names, any-Among, All-Among}
use grpc_webnext.Reflect.Fetch.{
  Request, file_by_filename, Loaded, loaded, ◌>>=◌, contains_key, Walk, Wire, note_dep, note_deps,
}
use grpc_webnext.Reflect.Fetch.Missing.{Among-append_left, Among-append_right, missing, missing-lt}

-- A name has a file, or is asked for.
unfoldable pub Covered : List Bytes → List Bytes → Bytes → Type 0
Covered files asked d = (Among d files) ⊎ (Among d asked)

-- The files that a list of names is in or is asked for.
unfoldable pub Settled : List Bytes → Walk → Type 0
Settled asked w =
    All (λ f. All (Covered (names w.files) asked) f.1.deps) w.files
    × All (Covered (names w.files) asked) w.requested

-- What the driver adds to its state: `more` are the names that it asks for.
pub record Noted (us asked : List Bytes) (w w' : Walk) : Type 0 where
  pub more : List Bytes
  pub sent : w'.sent ≡ w.sent ++ map file_by_filename more
  pub pending : w'.pending ≡ w.pending + length more
  pub known : All (λ d. Among d us) more
  pub fewer : missing us w'.requested + length more ≤ missing us w.requested
  pub kept : (n : Bytes) → Among n (names w.files) → Among n (names w'.files)
  pub settled : Settled (asked ++ more) w'

pub All-map {ℓ κ λ'} :
    {A : Type ℓ} (P : A → Type κ) (Q : A → Type λ') (f : (a : A) → P a → Q a) (xs : List A)
    → All P xs
    → All Q xs
All-map P Q f [] h = tt
All-map P Q f (x ∷ xs) (h, hs) = (f x h, All-map P Q f xs hs)

Covered-grow :
    (fs fs' asked more : List Bytes) (d : Bytes)
    → ((n : Bytes) → Among n fs → Among n fs')
    → Covered fs asked d
    → Covered fs' (asked ++ more) d
unfolding Covered
Covered-grow fs fs' asked more d kept (inl h) = inl (kept d h)
Covered-grow fs fs' asked more d kept (inr h) = inr (Among-append_left d asked more h)

pub Covered-kept :
    (fs fs' asked : List Bytes)
    → ((n : Bytes) → Among n fs → Among n fs')
    → (ds : List Bytes) → All (Covered fs asked) ds
    → All (Covered fs' asked) ds
unfolding Covered
Covered-kept fs fs' asked kept [] h = tt
Covered-kept fs fs' asked kept (d ∷ ds) (inl h, hs) =
    (inl (kept d h), Covered-kept fs fs' asked kept ds hs)
Covered-kept fs fs' asked kept (d ∷ ds) (inr h, hs) = (inr h, Covered-kept fs fs' asked kept ds hs)

-- What was settled stays so while files and questions come.
Settled-grow :
    (asked more : List Bytes) (w w' : Walk) (files : Files)
    → ((n : Bytes) → Among n (names w.files) → Among n (names w'.files))
    → All (λ f. All (Covered (names w.files) asked) f.1.deps) files
    → All (λ f. All (Covered (names w'.files) (asked ++ more)) f.1.deps) files
Settled-grow asked more w w' files kept h =
    All-map _ _
      (λ f ds.
        All-map _ _ (λ d c. Covered-grow (names w.files) (names w'.files) asked more d kept c)
          f.1.deps ds)
      files h

unfoldable pub same-Noted :
    (us asked : List Bytes) (w : Walk) → Settled asked w → Noted us asked w w
same-Noted us asked w s = record {
  more = [];
  sent = sym (append-nil w.sent);
  pending = omega arith;
  known = tt;
  fewer = omega arith;
  kept = λ n h. h;
  settled = rw append-nil s;
}

unfoldable pub Noted-trans :
    (us asked : List Bytes) (a b c : Walk) (p : Noted us asked a b)
    → Noted us (asked ++ p.more) b c
    → Noted us asked a c
Noted-trans us asked a b c p q = record {
  more = p.more ++ q.more;
  sent =
      q.sent
      ∙ ap (λ l. l ++ map file_by_filename q.more) p.sent
      ∙ append_assoc a.sent (map file_by_filename p.more) (map file_by_filename q.more)
      ∙ ap (λ l. a.sent ++ l) (sym (map-append file_by_filename p.more q.more));
  pending = omega (arith, p.pending, q.pending, length-append p.more q.more);
  known = All-append _ p.more q.more p.known q.known;
  fewer = omega (arith, p.fewer, q.fewer, length-append p.more q.more);
  kept = λ n h. q.kept n (p.kept n h);
  settled = subst (λ l. Settled l c) (append_assoc asked p.more q.more) q.settled;
}

module _ (wire : Wire) (opened : (q : Request) → wire.is_open q ≡ true) (us : List Bytes) where
  -- Dependencies that were noted.
  pub record Deps (asked ds : List Bytes) (w : Walk) (r : Loaded Walk) : Type 0 where
    pub after : Walk
    pub result : r ≡ loaded after
    pub noted : Noted us asked w after
    files : after.files ≡ w.files
    pub covers : All (Covered (names after.files) (asked ++ noted.more)) ds

  asked_dep :
      (asked : List Bytes) (dep : Bytes) (w : Walk)
      → Among dep us
      → any (λ n. str_eq n dep) w.requested ≡ false
      → Settled asked w
      → Deps asked (dep ∷ []) w (
          loaded (record {
            files = w.files;
            requested = dep ∷ w.requested;
            pending = w.pending + 1;
            sent = w.sent ++ file_by_filename dep ∷ [];
          }))
  unfolding Settled Covered
  asked_dep asked dep w known e (s, t) = record {
    after = _;
    result = refl;
    noted = record {
      more = dep ∷ [];
      sent = refl;
      pending = refl;
      known = (known, tt);
      fewer = missing-lt us dep w.requested known e;
      kept = λ n h. h;
      settled = (
        Settled-grow asked (dep ∷ []) w w w.files (λ n h. h) s,
        (
          inr (Among-append_right dep asked (dep ∷ []) (here [])),
          All-map _ _
              (λ d c. Covered-grow (names w.files) (names w.files) asked (dep ∷ []) d (λ n h. h) c)
              w.requested t,
        ),
      );
    };
    files = refl;
    covers = (inr (Among-append_right dep asked (dep ∷ []) (here [])), tt);
  }

  note_dep-Deps :
      (asked : List Bytes) (dep : Bytes) (w : Walk)
      → Among dep us
      → Settled asked w
      → Deps asked (dep ∷ []) w (note_dep wire dep w)
  unfolding note_dep contains_key Settled Covered same-Noted
  note_dep-Deps asked dep w known s =
      go (any (λ n. str_eq n dep) (names w.files)) refl (any (λ n. str_eq n dep) w.requested) refl _
        (rw (opened (file_by_filename dep)) refl)
    where
      go :
          (a : Bool)
          → any (λ n. str_eq n dep) (names w.files) ≡ a
          → (b : Bool) → any (λ n. str_eq n dep) w.requested ≡ b
          → (x : Loaded Walk)
          → x
            ≡ loaded (record {
              files = w.files;
              requested = dep ∷ w.requested;
              pending = w.pending + 1;
              sent = w.sent ++ file_by_filename dep ∷ [];
            })
          → Deps asked (dep ∷ []) w (if not a && not b then x else loaded w)
      go true e b f x q = record {
        after = w;
        result = refl;
        noted = same-Noted us asked w s;
        files = refl;
        covers = (inl (any-Among dep (names w.files) e), tt);
      }
      go false e true f x q = record {
        after = w;
        result = refl;
        noted = same-Noted us asked w s;
        files = refl;
        covers = (
          Covered-grow (names w.files) (names w.files) asked [] dep (λ n h. h)
              (All-Among (Covered (names w.files) asked) dep w.requested s.1
                (any-Among dep w.requested f)),
          tt,
        );
      }
      go false e false f x q = rw q (asked_dep asked dep w known f s)

  pub note_deps-Deps :
      (asked ds : List Bytes) (w : Walk)
      → All (λ d. Among d us) ds
      → Settled asked w
      → Deps asked ds w (note_deps wire ds w)
  unfolding note_deps same-Noted Noted-trans
  note_deps-Deps asked [] w known s = record {
    after = w;
    result = refl;
    noted = same-Noted us asked w s;
    files = refl;
    covers = tt;
  }
  note_deps-Deps asked (d ∷ ds) w (k, known) s =
      let p = note_dep-Deps asked d w k s in
      let q = note_deps-Deps (asked ++ p.noted.more) ds p.after known p.noted.settled in
      after_one p q
    where
      after_one :
          (p : Deps asked (d ∷ []) w (note_dep wire d w))
          → Deps (asked ++ p.noted.more) ds p.after (note_deps wire ds p.after)
          → Deps asked (d ∷ ds) w (note_dep wire d w >>= λ w'. note_deps wire ds w')
      after_one p q = record {
        after = q.after;
        result = rw p.result q.result;
        noted = Noted-trans us asked w p.after q.after p.noted q.noted;
        files = q.files ∙ p.files;
        covers =
            subst (λ l. All (Covered (names q.after.files) l) (d ∷ ds))
              (append_assoc asked p.noted.more q.noted.more)
              (
                Covered-grow (names p.after.files) (names q.after.files) (asked ++ p.noted.more)
                    q.noted.more d q.noted.kept p.covers.0,
                q.covers,
              );
      }
