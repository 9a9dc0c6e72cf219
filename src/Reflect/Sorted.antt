-- ===== src/Reflect/Sorted.antt =====
-- That the files come in an order in which each follows what it depends on (`topo_sort` of
-- rust/crates/grpc-webnext/src/reflect.rs).
use grpc_webnext.Prelude.{
  ℕ, zero, suc, ◌≤◌, ◌<◌, ◌≡◌, ◌≢◌, ◌⊎◌, inl, inr, List, [], ◌∷◌, Option, none, some, Bool, true,
  false, Bytes, any, All, str_eq, if◌then◌else◌, refl, arith,
}
use grpc_webnext.Reflect.Names.{
  Among, here, there, names, any-Among, sort_names-Among, look_up-Among, All-Among,
}
use grpc_webnext.Reflect.{
  RawFile, Files, look_up, Visit, visit_each, push_file, visit, sort_names, sorted_files,
}

-- Each file stands in front of the files it depends on: the last one that was pushed comes first.
abbrev pub Follows : Files → Bytes → Files → Type 0
Follows files d pushed = look_up files d ≢ none → Among d (names pushed)

abbrev pub Ordered : Files → Files → Type 0
Ordered files [] = All (λ d. Follows files d []) []
Ordered files ((n, f) ∷ pushed) = All (λ d. Follows files d pushed) f.deps × Ordered files pushed

module _ (files : Files) (rank : Bytes → ℕ)
    (acyclic : (n : Bytes) (f : RawFile)
      → look_up files n ≡ some f
      → All (λ d. rank d < rank n) f.deps) where
  -- What was seen of at most this rank was pushed.
  Ready : ℕ → Visit → Type 0
  Ready k st =
      (n : Bytes) → Among n st.seen → look_up files n ≢ none → rank n < k → Among n (names st.out)

  -- What a visit does: the files stay ordered, what was pushed stays, and what is newly seen is pushed.
  record Grown (before after : Visit) : Type 0 where
    ordered : Ordered files after.out
    kept : (n : Bytes) → Among n (names before.out) → Among n (names after.out)
    pushed :
        (n : Bytes)
        → Among n after.seen
        → look_up files n ≢ none
        → (Among n (names after.out)) ⊎ (Among n before.seen)

  record Visited (name : Bytes) (before : Visit) (r : Option Visit) : Type 0 where
    after : Visit
    result : r ≡ some after
    grown : Grown before after
    stands : look_up files name ≢ none → Among name (names after.out)

  Ready-Grown : (k : ℕ) (a b : Visit) → Ready k a → Grown a b → Ready k b
  unfolding Ready
  Ready-Grown k a b ready g n s p l = elim (g.pushed n s p) [
    | inl o ↦ o
    | inr o ↦ g.kept n (ready n o p l)
  ]

  Grown-trans : (a b c : Visit) → Grown a b → Grown b c → Grown a c
  Grown-trans a b c g h = record {
    ordered = h.ordered;
    kept = λ n o. h.kept n (g.kept n o);
    pushed = λ n s p. elim (h.pushed n s p) [
      | inl o ↦ inl o
      | inr o ↦ elim (g.pushed n o p) [ inl q ↦ inl (h.kept n q) | inr q ↦ inr q ]
    ];
  }

  record Each (ns : List Bytes) (before : Visit) (r : Option Visit) : Type 0 where
    after : Visit
    result : r ≡ some after
    grown : Grown before after
    stand : All (λ d. Follows files d after.out) ns

  -- Visits that each do so do so in turn.
  visit_each-Each :
      (go : Bytes → Visit → Option Visit) (k : ℕ) (ns : List Bytes) (st : Visit)
      → ((n : Bytes) (st : Visit)
          → rank n < k
          → Ready k st
          → Ordered files st.out
          → Visited n st (go n st))
      → All (λ d. rank d < k) ns
      → Ready k st
      → Ordered files st.out
      → Each ns st (visit_each go ns st)
  unfolding visit_each
  visit_each-Each go k [] st v h ready o = record {
    after = st;
    result = refl;
    grown = record { ordered = o; kept = λ n q. q; pushed = λ n s p. inr s };
    stand = tt;
  }
  visit_each-Each go k (n ∷ ns) st v (h, hs) ready o =
      let one = v n st h ready o in
      let rest =
        visit_each-Each go k ns one.after v hs (Ready-Grown k st one.after ready one.grown)
          one.grown.ordered in
      record {
        after = rest.after;
        result = rw (visit_each, one.result) rest.result;
        grown = Grown-trans st one.after rest.after one.grown rest.grown;
        stand = (λ p. rest.grown.kept n (one.stands p), rest.stand);
      }

  Ready-le : (a b : ℕ) (st : Visit) → a ≤ b → Ready b st → Ready a st
  unfolding Ready
  Ready-le a b st h ready n s p l = ready n s p (omega (arith, h, l))

  -- A file behind the files it depends on.
  push_file-Visited :
      (name : Bytes) (f : RawFile) (st : Visit) (r : Option Visit)
      → Each f.deps (record { seen = name ∷ st.seen; out = st.out }) r
      → Visited name st (push_file name f r)
  unfolding push_file
  push_file-Visited name f st r e = record {
    after = record { seen = e.after.seen; out = (name, f) ∷ e.after.out };
    result = rw (push_file, e.result) refl;
    grown = record {
      ordered = (e.stand, e.grown.ordered);
      kept = λ n o. there name (names e.after.out) (e.grown.kept n o);
      pushed = λ n s p. elim (e.grown.pushed n s p) [
        | inl o ↦ inl (there name (names e.after.out) o)
        | inr o ↦ entered n o
      ];
    };
    stands = λ p. here (names e.after.out);
  }
    where
      entered :
          (n : Bytes)
          → Among n (name ∷ st.seen)
          → (Among n (name ∷ names e.after.out)) ⊎ (Among n st.seen)
      entered n (here ns) = inl (here (names e.after.out))
      entered n (there m ns o) = inr o

  absent-Visited :
      (name : Bytes) (st : Visit)
      → look_up files name ≡ none
      → Ordered files st.out
      → Visited name st (some (record { seen = name ∷ st.seen; out = st.out }))
  absent-Visited name st e o = record {
    after = record { seen = name ∷ st.seen; out = st.out };
    result = refl;
    grown = record { ordered = o; kept = λ n q. q; pushed = λ n s p. entered n s p };
    stands = λ p. absurd (p e);
  }
    where
      entered :
          (n : Bytes)
          → Among n (name ∷ st.seen)
          → look_up files n ≢ none
          → (Among n (names st.out)) ⊎ (Among n st.seen)
      entered n (here ns) p = absurd (p e)
      entered n (there m ns q) p = inr q

  visit-Visited :
      (fuel : ℕ) (name : Bytes) (st : Visit)
      → rank name < fuel
      → Ready (suc (rank name)) st
      → Ordered files st.out
      → Visited name st (visit fuel files name st)
  unfolding visit Ready
  visit-Visited zero name st h ready o = absurd (omega (arith, h))
  visit-Visited (suc fuel) name st h ready o =
      go (any (λ s. str_eq s name) st.seen) refl (look_up files name) refl (λ n t l r q.
        visit-Visited fuel n t (omega (arith, h, l)) (Ready-le (suc (rank n)) (rank name) t l r) q)
    where
      entered : Visit
      entered = record { seen = name ∷ st.seen; out = st.out }

      deps_ready : Ready (rank name) entered
      deps_ready = waiting
        where
          waiting :
              (n : Bytes)
              → Among n (name ∷ st.seen)
              → look_up files n ≢ none
              → rank n < rank name
              → Among n (names st.out)
          waiting n (here ns) p l = absurd (omega (arith, l))
          waiting n (there m ns q) p l = ready n q p (omega (arith, l))

      go :
          (b : Bool)
          → any (λ s. str_eq s name) st.seen ≡ b
          → (l : Option RawFile) → look_up files name ≡ l
          → ((n : Bytes) (t : Visit)
              → rank n < rank name
              → Ready (rank name) t
              → Ordered files t.out
              → Visited n t (visit fuel files n t))
          → Visited name st (
              if b then some st else elim l [
                | none ↦ some entered
                | some f ↦ push_file name f (visit_each (visit fuel files) f.deps entered)
              ])
      go true e l q v = record {
        after = st;
        result = refl;
        grown = record { ordered = o; kept = λ n x. x; pushed = λ n s p. inr s };
        stands = λ p. ready name (any-Among name st.seen e) p (omega arith);
      }
      go false e none q v = absent-Visited name st q o
      go false e (some f) q v =
          push_file-Visited name f st (visit_each (visit fuel files) f.deps entered) (
            visit_each-Each (visit fuel files) (rank name) f.deps entered v (acyclic name f q)
              deps_ready o)

start-Ready :
    (files : Files) (rank : Bytes → ℕ)
    (acyclic : (n : Bytes) (f : RawFile)
      → look_up files n ≡ some f
      → All (λ d. rank d < rank n) f.deps)
    (k : ℕ)
    → Ready files rank acyclic k (record { seen = []; out = [] })
unfolding Ready
start-Ready files rank acyclic k n s p l = elim s [ ]

below :
    (rank : Bytes → ℕ) (k : ℕ)
    → ((n : Bytes) → rank n < k)
    → (ns : List Bytes) → All (λ n. rank n < k) ns
below rank k h [] = tt
below rank k h (n ∷ ns) = (h n, below rank k h ns)

-- If the names have ranks below a bound, and each file a higher rank than the files it depends on, so
-- that no file depends on itself over others, then with this bound as fuel the files are sorted: each
-- is pushed behind all the files that it depends on, and every file is pushed.
pub sorted_files-Ordered :
    (files : Files) (rank : Bytes → ℕ) (fuel : ℕ)
    → ((n : Bytes) → rank n < fuel)
    → ((n : Bytes) (f : RawFile) → look_up files n ≡ some f → All (λ d. rank d < rank n) f.deps)
    → (st : Visit) × (sorted_files fuel files ≡ some st)
      × Ordered files st.out
      × ((n : Bytes) → look_up files n ≢ none → Among n (names st.out))
unfolding sorted_files
sorted_files-Ordered files rank fuel bound acyclic =
    let start : Visit = record { seen = []; out = [] } in
    let all = sort_names (names files) in
    let e =
      visit_each-Each files rank acyclic (visit fuel files) fuel all start
        (λ n st h ready o.
          visit-Visited files rank acyclic fuel n st h
            (Ready-le files rank acyclic (suc (rank n)) fuel st h ready) o)
        (below rank fuel bound all) (start-Ready files rank acyclic fuel) tt in
    (
      e.after,
      e.result,
      e.grown.ordered,
      λ n p.
          All-Among (λ d. Follows files d e.after.out) n all e.stand
            (sort_names-Among n (names files) (look_up-Among files n p)) p,
    )
