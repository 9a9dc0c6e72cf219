-- ===== src/Reflect/Load/Whole.antt =====
-- That the descriptor pool gets whole files, in order (`load_all` of
-- rust/crates/grpc-webnext/src/reflect.rs).
use grpc_webnext.Prelude.{
  ℕ, ◌<◌, ◌≡◌, ◌≢◌, List, [], ◌∷◌, none, some, Bool, true, false, Bytes, All, str_eq, str_eq_refl,
  if◌then◌else◌, refl, subst,
}
use grpc_webnext.Reflect.{RawFile, Files, look_up, Visit, sorted_files}
use grpc_webnext.Reflect.Names.{Among, here, there, names}
use grpc_webnext.Reflect.Known.{Known, sorted_files-Known}
use grpc_webnext.Reflect.Sorted.{Follows, Ordered, sorted_files-Ordered}
use grpc_webnext.Reflect.Fetch.{
  Call, Loaded, loaded, failed, waiting, insert_file, Wire, Walk, fetch,
}
use grpc_webnext.Reflect.Fetch.Asked.{All-map}
use grpc_webnext.Reflect.Fetch.Notes.{insert_file-Among_old, insert_file-Among_new, insert_file-All}
use grpc_webnext.Reflect.Fetch.Closed.{Closed}
use grpc_webnext.Reflect.Load.{extend, load_each}

-- The files depend on names of a list only.
Within : List Bytes → Files → Type 0
Within ns files = All (λ f. All (λ d. Among d ns) f.1.deps) files

Within-grow :
    (ns ms : List Bytes)
    → ((n : Bytes) → Among n ns → Among n ms)
    → (files : Files) → Within ns files
    → Within ms files
unfolding Within
Within-grow ns ms more files h =
    All-map _ _ (λ f ds. All-map _ _ (λ d a. more d a) f.1.deps ds) files h

extend-Among_left :
    (files more : Files) (n : Bytes) → Among n (names files) → Among n (names (extend files more))
unfolding extend
extend-Among_left files [] n h = h
extend-Among_left files ((m, f) ∷ more) n h =
    extend-Among_left (insert_file m f files) more n (insert_file-Among_old m f files n h)

extend-Among_right :
    (files more : Files) (n : Bytes) → Among n (names more) → Among n (names (extend files more))
unfolding extend
extend-Among_right files [] n h = elim h [ ]
extend-Among_right files ((m, f) ∷ more) n (here _) =
    extend-Among_left (insert_file m f files) more m (insert_file-Among_new m f files)
extend-Among_right files ((m, f) ∷ more) n (there _ _ h) =
    extend-Among_right (insert_file m f files) more n h

extend-Within :
    (ns : List Bytes) (files more : Files)
    → Within ns files
    → Within ns more
    → Within ns (extend files more)
unfolding extend Within
extend-Within ns files [] h k = h
extend-Within ns files ((m, f) ∷ more) h (k, ks) =
    extend-Within ns (insert_file m f files) more (insert_file-All _ m f files k h) ks

extend-Closed : (files more : Files) → Closed files → Closed more → Closed (extend files more)
unfolding Closed Within
extend-Closed files more h k =
    let ns = names (extend files more) in
    extend-Within ns files more
      (Within-grow (names files) ns (λ n a. extend-Among_left files more n a) files h)
      (Within-grow (names more) ns (λ n a. extend-Among_right files more n a) more k)

load_each-Closed :
    (wire : Wire) (exchange : Bytes → Call)
    → ((s : Bytes) (w : Walk) → fetch wire (exchange s) s ≡ loaded w → Closed w.files)
    → (services : List Bytes) (before after : Files) → Closed before
    → load_each wire exchange services before ≡ loaded after
    → Closed after
unfolding load_each
load_each-Closed wire exchange whole [] before after k e =
    let same : before ≡ after = cc in subst Closed same k
load_each-Closed wire exchange whole (s ∷ ss) before after k e =
    go (fetch wire (exchange s) s) (whole s)
      (λ b c. load_each-Closed wire exchange whole ss b after c) e
  where
    go :
        (o : Loaded Walk)
        → ((w : Walk) → o ≡ loaded w → Closed w.files)
        → ((b : Files) → Closed b → load_each wire exchange ss b ≡ loaded after → Closed after)
        → elim o [
          | loaded w ↦ load_each wire exchange ss (extend before w.files)
          | failed x ↦ load_each wire exchange ss before
          | waiting ↦ waiting
        ]
          ≡ loaded after
        → Closed after
    go (loaded w) h rest q =
        rest (extend before w.files) (extend-Closed before w.files k (h w refl)) q
    go (failed x) h rest q = rest before k q
    go waiting h rest q = cc

-- Each file stands in front of all that it depends on: the last one that was pushed comes first.
pub Complete : Files → Type 0
Complete [] = Unit
Complete ((n, f) ∷ pushed) = All (λ d. Among d (names pushed)) f.deps × Complete pushed

Among-look_up : (files : Files) (n : Bytes) → Among n (names files) → look_up files n ≢ none
unfolding look_up
Among-look_up [] n h e = elim h [ ]
Among-look_up ((m, f) ∷ files) n (here _) e = cc (rw (str_eq_refl m) at e)
Among-look_up ((m, f) ∷ files) n (there _ _ h) e = go (str_eq m n) (Among-look_up files n h) e
  where
    go : (b : Bool) → look_up files n ≢ none → (if b then some f else look_up files n) ≡ none → ⊥
    go true k q = cc
    go false k q = k q

deps-Among :
    (ns : List Bytes) (files : Files) (n : Bytes) (f : RawFile)
    → look_up files n ≡ some f
    → Within ns files
    → All (λ d. Among d ns) f.deps
unfolding look_up Within
deps-Among ns [] n f e h = cc
deps-Among ns ((m, g) ∷ files) n f e (h, hs) = go (str_eq m n) (λ q. deps-Among ns files n f q hs) e
  where
    go :
        (b : Bool)
        → (look_up files n ≡ some f → All (λ d. Among d ns) f.deps)
        → (if b then some g else look_up files n) ≡ some f
        → All (λ d. Among d ns) f.deps
    go true k q =
        let same : g ≡ f = cc in subst (λ (x : RawFile). All (λ d. Among d ns) x.deps) same h
    go false k q = k q

follow :
    (files pushed : Files) (ds : List Bytes)
    → All (λ d. Follows files d pushed) ds
    → All (λ d. Among d (names files)) ds
    → All (λ d. Among d (names pushed)) ds
follow files pushed [] h k = tt
follow files pushed (d ∷ ds) (h, hs) (k, ks) =
    (h (Among-look_up files d k), follow files pushed ds hs ks)

Ordered-Complete :
    (files pushed : Files)
    → Closed files
    → Ordered files pushed
    → Known files pushed
    → Complete pushed
unfolding Complete Closed Known Within
Ordered-Complete files [] c o k = tt
Ordered-Complete files ((n, f) ∷ pushed) c (o, os) (k, ks) = (
  follow files pushed f.deps o (deps-Among (names files) files n f k c),
  Ordered-Complete files pushed c os ks,
)

-- If every exchange that ends gives the files it depends on, too, the loop over the services ends
-- with some files, and these have ranks below a bound, each a higher one than the files it depends on,
-- then with this bound as fuel the files are sorted: each stands behind all that it depends on, none
-- of which is missing, and no file is left out. Services whose exchange failed do not matter.
pub load_each-Complete :
    (wire : Wire) (exchange : Bytes → Call) (services : List Bytes) (files : Files)
    → ((s : Bytes) (w : Walk) → fetch wire (exchange s) s ≡ loaded w → Closed w.files)
    → load_each wire exchange services [] ≡ loaded files
    → (rank : Bytes → ℕ) (fuel : ℕ) → ((n : Bytes) → rank n < fuel)
    → ((n : Bytes) (f : RawFile) → look_up files n ≡ some f → All (λ d. rank d < rank n) f.deps)
    → (st : Visit) × (sorted_files fuel files ≡ some st)
      × Complete st.out
      × ((n : Bytes) → look_up files n ≢ none → Among n (names st.out))
unfolding Closed
load_each-Complete wire exchange services files whole e rank fuel bound acyclic =
    let (st, q, o, all) = sorted_files-Ordered files rank fuel bound acyclic in
    let c = load_each-Closed wire exchange whole services [] files tt e in
    (st, q, Ordered-Complete files st.out c o (sorted_files-Known files fuel st q), all)
