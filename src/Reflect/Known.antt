-- ===== src/Reflect/Known.antt =====
-- What the sort pushes are the files it was given (`topo_sort` of
-- rust/crates/grpc-webnext/src/reflect.rs).
use grpc_webnext.Prelude.{
  ℕ, zero, suc, ◌≡◌, List, [], ◌∷◌, Option, none, some, Bool, true, false, Bytes, any, All, str_eq,
  if◌then◌else◌, refl, subst,
}
use grpc_webnext.Reflect.{
  RawFile, Files, look_up, Visit, visit_each, push_file, visit, sorted_files,
}

-- What was pushed stands among the files under its name.
unfoldable pub Known : Files → Files → Type 0
Known files pushed = All (λ e. look_up files e.0 ≡ some e.1) pushed

module _ (files : Files) where
  visit_each-Known :
      (go : Bytes → Visit → Option Visit)
      → ((n : Bytes) (st st' : Visit)
          → Known files st.out
          → go n st ≡ some st'
          → Known files st'.out)
      → (ns : List Bytes) (st st' : Visit) → Known files st.out
      → visit_each go ns st ≡ some st'
      → Known files st'.out
  unfolding visit_each
  visit_each-Known go keep [] st st' k e =
      let same : st ≡ st' = cc in subst (λ (s : Visit). Known files s.out) same k
  visit_each-Known go keep (n ∷ ns) st st' k e =
      next (go n st) (keep n st) (λ m h q. visit_each-Known go keep ns m st' h q) e
    where
      next :
          (o : Option Visit)
          → ((st'' : Visit) → Known files st.out → o ≡ some st'' → Known files st''.out)
          → ((m : Visit) → Known files m.out → visit_each go ns m ≡ some st' → Known files st'.out)
          → elim o [ none ↦ none | some m ↦ visit_each go ns m ] ≡ some st'
          → Known files st'.out
      next none h rest q = cc
      next (some m) h rest q = rest m (h m k refl) q

  push_file-Known :
      (name : Bytes) (f : RawFile) (o : Option Visit) (st' : Visit)
      → look_up files name ≡ some f
      → ((m : Visit) → o ≡ some m → Known files m.out)
      → push_file name f o ≡ some st'
      → Known files st'.out
  unfolding push_file Known
  push_file-Known name f none st' l h e = cc
  push_file-Known name f (some m) st' l h e =
      let same : record { seen = m.seen; out = (name, f) ∷ m.out } ≡ st' = cc in
      subst (λ (s : Visit). Known files s.out) same (l, h m refl)

  visit-Known :
      (fuel : ℕ) (name : Bytes) (st st' : Visit)
      → Known files st.out
      → visit fuel files name st ≡ some st'
      → Known files st'.out
  unfolding visit
  visit-Known zero name st st' k e = cc
  visit-Known (suc fuel) name st st' k e =
      go (any (λ s. str_eq s name) st.seen) (look_up files name) refl
        (λ n a b. visit-Known fuel n a b) e
    where
      entered : Visit
      entered = record { seen = name ∷ st.seen; out = st.out }

      go :
          (b : Bool) (o : Option RawFile)
          → look_up files name ≡ o
          → ((n : Bytes) (a b : Visit)
              → Known files a.out
              → visit fuel files n a ≡ some b
              → Known files b.out)
          → (if b then some st else elim o [
            | none ↦ some entered
            | some f ↦ push_file name f (visit_each (visit fuel files) f.deps entered)
          ])
            ≡ some st'
          → Known files st'.out
      go true o l ih q = let same : st ≡ st' = cc in subst (λ (s : Visit). Known files s.out) same k
      go false none l ih q =
          let same : entered ≡ st' = cc in subst (λ (s : Visit). Known files s.out) same k
      go false (some f) l ih q =
          push_file-Known name f _ st' l
            (λ m z. visit_each-Known (visit fuel files) ih f.deps entered m k z) q

  pub sorted_files-Known :
      (fuel : ℕ) (st : Visit) → sorted_files fuel files ≡ some st → Known files st.out
  unfolding sorted_files Known
  sorted_files-Known fuel st e =
      visit_each-Known (visit fuel files) (λ n a b. visit-Known fuel n a b) _
        (record { seen = []; out = [] }) st tt e
