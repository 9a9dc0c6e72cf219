-- ===== src/Reflect/Fetch/Notes.antt =====
-- What the driver of a reflection exchange makes of one message (`reflection_driver!` of
-- rust/crates/grpc-webnext/src/reflect.rs).
use grpc_webnext.Prelude.{
  ◌≡◌, List, [], ◌∷◌, ◌++◌, Bool, true, false, Bytes, All, str_eq, str_eq→eq, if◌then◌else◌, refl,
  subst,
}
use grpc_webnext.Reflect.{RawFile, Files}
use grpc_webnext.Reflect.Names.{Among, here, there, names}
use grpc_webnext.Reflect.Fetch.{
  Request, parsed, Loaded, loaded, ◌>>=◌, insert_file, Walk, Wire, file_meta, note_deps, note_file,
  note_files,
}
use grpc_webnext.Reflect.Fetch.Asked.{
  Covered, Settled, Noted, All-map, Covered-kept, same-Noted, Noted-trans, Deps, note_deps-Deps,
}

pub insert_file-Among_new :
    (n : Bytes) (f : RawFile) (fs : Files) → Among n (names (insert_file n f fs))
unfolding insert_file
insert_file-Among_new n f [] = here []
insert_file-Among_new n f ((m, g) ∷ fs) = go (str_eq m n) (insert_file-Among_new n f fs)
  where
    go :
        (b : Bool)
        → Among n (names (insert_file n f fs))
        → Among n (names (if b then (n, f) ∷ fs else (m, g) ∷ insert_file n f fs))
    go true h = here (names fs)
    go false h = there m _ h

pub insert_file-Among_old :
    (n : Bytes) (f : RawFile) (fs : Files) (x : Bytes)
    → Among x (names fs)
    → Among x (names (insert_file n f fs))
unfolding insert_file
insert_file-Among_old n f [] x h = elim h [ ]
insert_file-Among_old n f ((m, g) ∷ fs) x h =
    go (str_eq m n) refl x h (insert_file-Among_old n f fs)
  where
    go :
        (b : Bool)
        → str_eq m n ≡ b
        → (x : Bytes) → Among x (m ∷ names fs)
        → ((x : Bytes) → Among x (names fs) → Among x (names (insert_file n f fs)))
        → Among x (names (if b then (n, f) ∷ fs else (m, g) ∷ insert_file n f fs))
    go true e x h ih = subst (λ k. Among x (k ∷ names fs)) (str_eq→eq m n e) h
    go false e x (here _) ih = here _
    go false e x (there _ _ h) ih = there m _ (ih x h)

pub insert_file-All :
    (P : Bytes × RawFile → Type 0) (n : Bytes) (f : RawFile) (fs : Files)
    → P (n, f)
    → All P fs
    → All P (insert_file n f fs)
unfolding insert_file
insert_file-All P n f [] p h = (p, tt)
insert_file-All P n f ((m, g) ∷ fs) p (h, hs) = go (str_eq m n) (insert_file-All P n f fs p hs)
  where
    go :
        (b : Bool)
        → All P (insert_file n f fs)
        → All P (if b then (n, f) ∷ fs else (m, g) ∷ insert_file n f fs)
    go true ih = (p, hs)
    go false ih = (h, ih)

either-Among :
    (n m : Bytes) (ns rest : List Bytes)
    → Among n (m ∷ ns)
    → Among m rest
    → ((x : Bytes) → Among x ns → Among x rest)
    → Among n rest
either-Among n m ns rest (here _) p q = p
either-Among n m ns rest (there _ _ h) p q = q n h

-- The bytes of a file descriptor, which depends on known files.
pub record Readable (wire : Wire) (us : List Bytes) (raw : Bytes) : Type 0 where
  pub name : Bytes
  pub deps : List Bytes
  pub reads : wire.decode raw ≡ parsed name deps
  pub known : All (λ d. Among d us) deps

-- The names of files that can be read.
unfoldable pub names_of :
    (wire : Wire) (us : List Bytes) (raws : List Bytes) → All (Readable wire us) raws → List Bytes
names_of wire us [] h = []
names_of wire us (raw ∷ raws) (h, hs) = h.name ∷ names_of wire us raws hs

module _ (wire : Wire) (opened : (q : Request) → wire.is_open q ≡ true) (us : List Bytes) where
  -- A file that was noted.
  record Filed (asked : List Bytes) (name : Bytes) (w : Walk) (r : Loaded Walk) : Type 0 where
    after : Walk
    result : r ≡ loaded after
    noted : Noted us asked w after
    stands : Among name (names after.files)

  filed :
      (asked : List Bytes) (raw name : Bytes) (deps : List Bytes) (w : Walk) (r : Loaded Walk)
      → Deps wire opened us asked deps w r
      → Filed asked name w (
          r >>= λ w'.
          loaded
            (record w' { files = insert_file name (record { bytes = raw; deps = deps }) w'.files }))
  unfolding Settled Covered
  filed asked raw name deps w r p =
      let f : RawFile = record { bytes = raw; deps = deps } in
      let old = insert_file-Among_old name f p.after.files in
      let keep = Covered-kept (names p.after.files) _ (asked ++ p.noted.more) old in
      record {
        after = record p.after { files = insert_file name f p.after.files };
        result = rw p.result refl;
        stands = insert_file-Among_new name f p.after.files;
        noted = record {
          more = p.noted.more;
          sent = p.noted.sent;
          pending = p.noted.pending;
          known = p.noted.known;
          fewer = p.noted.fewer;
          kept = λ n h. old n (p.noted.kept n h);
          settled = (
            insert_file-All _ name f p.after.files (keep deps p.covers)
                (All-map _ _ (λ g ds. keep g.1.deps ds) p.after.files p.noted.settled.0),
            keep p.after.requested p.noted.settled.1,
          );
        };
      }

  note_file-Filed :
      (asked : List Bytes) (raw : Bytes) (w : Walk) (m : Readable wire us raw)
      → Settled asked w
      → Filed asked m.name w (note_file wire raw w)
  unfolding note_file
  note_file-Filed asked raw w m s =
      rw (m.reads, note_file, file_meta)
        (filed asked raw m.name m.deps w (note_deps wire m.deps w)
          (note_deps-Deps wire opened us asked m.deps w m.known s))

  -- Files that were noted.
  pub record FiledAll (asked ns : List Bytes) (w : Walk) (r : Loaded Walk) : Type 0 where
    pub after : Walk
    pub result : r ≡ loaded after
    pub noted : Noted us asked w after
    pub stand : (n : Bytes) → Among n ns → Among n (names after.files)

  pub note_files-FiledAll :
      (asked : List Bytes) (raws : List Bytes) (w : Walk) (ms : All (Readable wire us) raws)
      → Settled asked w
      → FiledAll asked (names_of wire us raws ms) w (note_files wire raws w)
  unfolding note_files names_of same-Noted Noted-trans
  note_files-FiledAll asked [] w ms s = record {
    after = w;
    result = refl;
    noted = same-Noted us asked w s;
    stand = λ n h. elim h [ ];
  }
  note_files-FiledAll asked (raw ∷ raws) w (m, ms) s =
      let p = note_file-Filed asked raw w m s in
      after_one p (note_files-FiledAll (asked ++ p.noted.more) raws p.after ms p.noted.settled)
    where
      after_one :
          (p : Filed asked m.name w (note_file wire raw w))
          → FiledAll
              (asked ++ p.noted.more)
              (names_of wire us raws ms)
              p.after
              (note_files wire raws p.after)
          → FiledAll asked
              (m.name ∷ names_of wire us raws ms)
              w
              (note_file wire raw w >>= λ w'. note_files wire raws w')
      after_one p q = record {
        after = q.after;
        result = rw p.result q.result;
        noted = Noted-trans us asked w p.after q.after p.noted q.noted;
        stand = λ n h.
            either-Among n m.name (names_of wire us raws ms) (names q.after.files) h
              (q.noted.kept m.name p.stands) q.stand;
      }
