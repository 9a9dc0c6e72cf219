-- ===== src/Text/Str/Pieces.antt =====
-- What holds of every byte of a text holds of the pieces that `str` functions cut it into.
use grpc_webnext.Prelude.{
  ℕ, ◌≡◌, Bool, true, false, [], ◌∷◌, ◌++◌, Option, none, some, Bytes, is_empty, All, All-append,
  ◌==◌, ◌&&◌, if◌then◌else◌, subst, refl,
}
use grpc_webnext.Text.Str.{
  split, split_from, split_once, trim_start_matches, trim_end_matches, trim_matches,
}

module _ (P : ℕ → Type 0) where
  trim_start_matches-All : (c : ℕ) (s : Bytes) → All P s → All P (trim_start_matches c s)
  unfolding trim_start_matches
  trim_start_matches-All c [] h = tt
  trim_start_matches-All c (x ∷ xs) (hx, hs) = go (x == c) (trim_start_matches-All c xs hs)
    where
      go :
          (b : Bool)
          → All P (trim_start_matches c xs)
          → All P (if b then trim_start_matches c xs else x ∷ xs)
      go true ih = ih
      go false ih = (hx, hs)

  trim_end_matches-All : (c : ℕ) (s : Bytes) → All P s → All P (trim_end_matches c s)
  unfolding trim_end_matches
  trim_end_matches-All c [] h = tt
  trim_end_matches-All c (x ∷ xs) (hx, hs) =
      go (is_empty (trim_end_matches c xs) && (x == c)) (trim_end_matches-All c xs hs)
    where
      go :
          (b : Bool)
          → All P (trim_end_matches c xs)
          → All P (if b then [] else x ∷ trim_end_matches c xs)
      go true ih = tt
      go false ih = (hx, ih)

  pub trim_matches-All : (c : ℕ) (s : Bytes) → All P s → All P (trim_matches c s)
  unfolding trim_matches
  trim_matches-All c s h =
      trim_end_matches-All c (trim_start_matches c s) (trim_start_matches-All c s h)

  split_from-All : (c : ℕ) (cur s : Bytes) → All P cur → All P s → All (All P) (split_from c cur s)
  unfolding split_from
  split_from-All c cur [] hc h = (hc, tt)
  split_from-All c cur (x ∷ xs) hc (hx, hs) =
      go (x == c) (split_from-All c [] xs tt hs)
        (split_from-All c (cur ++ x ∷ []) xs (All-append P cur (x ∷ []) hc (hx, tt)) hs)
    where
      go :
          (b : Bool)
          → All (All P) (split_from c [] xs)
          → All (All P) (split_from c (cur ++ x ∷ []) xs)
          → All (All P) (if b then cur ∷ split_from c [] xs else split_from c (cur ++ x ∷ []) xs)
      go true cut on = (hc, cut)
      go false cut on = on

  pub split-All : (c : ℕ) (s : Bytes) → All P s → All (All P) (split c s)
  unfolding split
  split-All c s h = split_from-All c [] s tt h

  pub split_once-All :
      (c : ℕ) (s a b : Bytes) → All P s → split_once c s ≡ some (a, b) → All P a × All P b
  unfolding split_once
  split_once-All c [] a b h e = cc
  split_once-All c (x ∷ xs) a b (hx, hs) e =
      go (x == c) (split_once c xs) (λ a' b' e'. split_once-All c xs a' b' hs e') e
    where
      go :
          (t : Bool) (o : Option (Bytes × Bytes))
          → ((a' b' : Bytes) → o ≡ some (a', b') → All P a' × All P b')
          → if◌then◌else◌ {A = Option (Bytes × Bytes)} t
              (some ([], xs))
              (elim o [ none ↦ none | some (a', b') ↦ some (x ∷ a', b') ])
            ≡ some (a, b)
          → All P a × All P b
      go true o ih e' =
          let ea : [] ≡ a = cc in let eb : xs ≡ b = cc in (subst (All P) ea tt, subst (All P) eb hs)
      go false none ih e' = cc
      go false (some (a', b')) ih e' =
          let ea : x ∷ a' ≡ a = cc in
          let eb : b' ≡ b = cc in
          let (ha, hb) = ih a' b' refl in (subst (All P) ea (hx, ha), subst (All P) eb hb)
