-- ===== src/Ws/Codec/Truncate.antt =====
-- The reason of a close frame (`truncate_utf8` of rust/crates/grpc-webnext/src/ws.rs).
use grpc_webnext.Prelude.{
  ℕ, zero, suc, ◌+◌, ◌-◌, ◌≤◌, ◌<◌, ◌≡◌, ◌⊎◌, inl, inr, Bool, true, false, Bool-cases, ltb, ltb→lt,
  ltb-false, not, List, [], ◌∷◌, ◌++◌, Option, none, some, Bytes, length, take, get_elem?, leb,
  leb→le, ◌==◌, ◌||◌, if◌then◌else◌, refl, sym, ap, ◌∙◌, subst, arith, length-append, length-take,
}
use native.Mathlib.Nat.{zero-add, suc-add}
use grpc_webnext.Text.Utf8.{encode_char, utf8, is_continuation}
use grpc_webnext.Ws.Codec.{is_char_boundary, back_up, truncate_utf8}

back_up_le : (s : Bytes) (m : ℕ) → back_up s m ≤ m
unfolding back_up
back_up_le s zero = omega arith
back_up_le s (suc m) = ground (arith, back_up_le s m)

back_up-boundary :
    (s : Bytes) (m : ℕ) → (back_up s m ≡ 0) ⊎ (is_char_boundary s (back_up s m) ≡ true)
unfolding back_up
back_up-boundary s zero = inl refl
back_up-boundary s (suc m) = go (is_char_boundary s (suc m)) refl (back_up-boundary s m)
  where
    go :
        (b : Bool)
        → is_char_boundary s (suc m) ≡ b
        → (back_up s m ≡ 0) ⊎ (is_char_boundary s (back_up s m) ≡ true)
        → ((if b then suc m else back_up s m) ≡ 0)
          ⊎ (is_char_boundary s (if b then suc m else back_up s m) ≡ true)
    go true e ih = inr e
    go false e ih = ih

≤-suc : (k m : ℕ) → k ≤ suc m → (k ≤ m) ⊎ (k ≡ suc m)
≤-suc k m h = ground arith

-- No boundary is passed over.
back_up-last : (s : Bytes) (m k : ℕ) → k ≤ m → is_char_boundary s k ≡ true → k ≤ back_up s m
unfolding back_up
back_up-last s zero k h e = omega (arith, h)
back_up-last s (suc m) k h e = go (is_char_boundary s (suc m)) refl (λ h'. back_up-last s m k h' e)
  where
    go :
        (b : Bool)
        → is_char_boundary s (suc m) ≡ b
        → (k ≤ m → k ≤ back_up s m)
        → k ≤ (if b then suc m else back_up s m)
    go true e' ih = h
    go false e' ih = last (≤-suc k m h)
      where
        last : (k ≤ m) ⊎ (k ≡ suc m) → k ≤ back_up s m
        last (inl h') = ih h'
        last (inr h') = let t : is_char_boundary s k ≡ false = rw h' e' in absurd cc

-- Behind its first byte a character has continuation bytes only.
inner : (c k : ℕ) → 0 < k → k < length (encode_char c) → is_char_boundary (encode_char c) k ≡ false
unfolding encode_char is_char_boundary
inner c zero l h = absurd (omega (arith, l))
inner c (suc zero) l h = ground arith
inner c (suc (suc zero)) l h = ground arith
inner c (suc (suc (suc zero))) l h = ground arith
inner c (suc (suc (suc (suc k)))) l h = ground arith

get_elem?_le : (s : Bytes) (k b : ℕ) → get_elem? s k ≡ some b → k ≤ length s
get_elem?_le [] k b e = cc
get_elem?_le (x ∷ s) zero b e = omega arith
get_elem?_le (x ∷ s) (suc k) b e = omega (arith, get_elem?_le s k b e)

boundary_eq :
    (s : Bytes) (k b : ℕ)
    → get_elem? s k ≡ some b
    → is_char_boundary s k ≡ ((k == 0) || not (is_continuation b))
unfolding is_char_boundary
boundary_eq s k b e = rw (is_char_boundary, e)

module _ {A : Type 0} where
  get_elem?-below : (xs : List A) (k : ℕ) → k < length xs → (x : A) × (get_elem? xs k ≡ some x)
  get_elem?-below [] k h = absurd (omega arith)
  get_elem?-below (x ∷ xs) zero h = (x, refl)
  get_elem?-below (x ∷ xs) (suc k) h = get_elem?-below xs k (omega arith)

  get_elem?-append_lt :
      (xs ys : List A) (k : ℕ) → k < length xs → get_elem? (xs ++ ys) k ≡ get_elem? xs k
  get_elem?-append_lt [] ys k h = absurd (omega arith)
  get_elem?-append_lt (x ∷ xs) ys zero h = refl
  get_elem?-append_lt (x ∷ xs) ys (suc k) h = get_elem?-append_lt xs ys k (omega arith)

  get_elem?-append_ge :
      (xs ys : List A) (j : ℕ) → get_elem? (xs ++ ys) (length xs + j) ≡ get_elem? ys j
  get_elem?-append_ge [] ys j = rw zero-add
  get_elem?-append_ge (x ∷ xs) ys j = rw suc-add (get_elem?-append_ge xs ys j)

  take-append_ge : (xs ys : List A) (j : ℕ) → take (length xs + j) (xs ++ ys) ≡ xs ++ take j ys
  take-append_ge [] ys j = rw zero-add
  take-append_ge (x ∷ xs) ys j = rw suc-add (ap (λ r. x ∷ r) (take-append_ge xs ys j))

boundary_lt :
    (c : ℕ) (r : Bytes) (k : ℕ)
    → 0 < k
    → k < length (encode_char c)
    → is_char_boundary (encode_char c ++ r) k ≡ false
boundary_lt c r k l h =
    let (b, e) = get_elem?-below (encode_char c) k h in
    let e' : get_elem? (encode_char c ++ r) k ≡ some b =
      get_elem?-append_lt (encode_char c) r k h ∙ e in
    boundary_eq (encode_char c ++ r) k b e'
    ∙ sym (boundary_eq (encode_char c) k b e)
    ∙ inner c k l h

boundary_ge :
    (e r : Bytes) (j : ℕ)
    → is_char_boundary (e ++ r) (length e + j) ≡ true
    → (j ≡ 0) ⊎ (is_char_boundary r j ≡ true)
unfolding is_char_boundary
boundary_ge e r zero h = inl refl
boundary_ge e r (suc j) h = inr (
    go (get_elem? r (suc j)) (
      subst
        (λ (o : Option ℕ).
          elim o [
            | none ↦ (length e + suc j) == length (e ++ r)
            | some b ↦ ((length e + suc j) == 0) || not (is_continuation b)
          ]
          ≡ true)
        (get_elem?-append_ge e r (suc j)) h))
  where
    go :
        (o : Option ℕ)
        → elim o [
          | none ↦ (length e + suc j) == length (e ++ r)
          | some b ↦ ((length e + suc j) == 0) || not (is_continuation b)
        ]
          ≡ true
        → elim o [ none ↦ suc j == length r | some b ↦ (suc j == 0) || not (is_continuation b) ]
          ≡ true
    go none k = ground (arith, length-append e r)
    go (some b) k = ground arith

-- A cut at a boundary is a cut between characters.
take-utf8 :
    (cs : List ℕ) (k : ℕ)
    → is_char_boundary (utf8 cs) k ≡ true
    → (n : ℕ) × (take k (utf8 cs) ≡ utf8 (take n cs))
unfolding utf8
take-utf8 cs zero e = (0, refl)
take-utf8 [] (suc k) e = (0, refl)
take-utf8 (c ∷ cs) (suc k) e =
    go (Bool-cases (ltb (suc k) (length (encode_char c)))) (λ j e'. take-utf8 cs j e')
  where
    go :
        (ltb (suc k) (length (encode_char c)) ≡ true)
          ⊎ (ltb (suc k) (length (encode_char c)) ≡ false)
        → ((j : ℕ)
            → is_char_boundary (utf8 cs) j ≡ true
            → (n : ℕ) × (take j (utf8 cs) ≡ utf8 (take n cs)))
        → (n : ℕ) × (take (suc k) (encode_char c ++ utf8 cs) ≡ utf8 (take n (c ∷ cs)))
    go (inl l) ih =
        let f : is_char_boundary (encode_char c ++ utf8 cs) (suc k) ≡ false =
          boundary_lt c (utf8 cs) (suc k) (omega arith) (ltb→lt _ _ l) in
        absurd cc
    go (inr l) ih =
        let j : ℕ = suc k - length (encode_char c) in
        let at : length (encode_char c) + j ≡ suc k = omega (arith, ltb-false _ _ l) in
        let e' : is_char_boundary (encode_char c ++ utf8 cs) (length (encode_char c) + j) ≡ true =
          rw at e in
        let (n, t) = tail j (boundary_ge (encode_char c) (utf8 cs) j e') in
        (
          suc n,
          ap (λ m. take m (encode_char c ++ utf8 cs)) (sym at)
              ∙ take-append_ge (encode_char c) (utf8 cs) j
              ∙ ap (λ r. encode_char c ++ r) t,
        )
      where
        tail :
            (j : ℕ)
            → (j ≡ 0) ⊎ (is_char_boundary (utf8 cs) j ≡ true)
            → (n : ℕ) × (take j (utf8 cs) ≡ utf8 (take n cs))
        tail j (inl z) = (0, ap (λ m. take m (utf8 cs)) z)
        tail j (inr b) = ih j b

take_all : (cs : List ℕ) → take (length cs) cs ≡ cs
take_all [] = refl
take_all (c ∷ cs) = ap (λ r. c ∷ r) (take_all cs)

boundary_le : (s : Bytes) (k : ℕ) → is_char_boundary s k ≡ true → k ≤ length s
unfolding is_char_boundary
boundary_le s k h = go (get_elem? s k) refl h
  where
    go :
        (o : Option ℕ)
        → get_elem? s k ≡ o
        → elim o [ none ↦ k == length s | some b ↦ (k == 0) || not (is_continuation b) ] ≡ true
        → k ≤ length s
    go none e h' = ground arith
    go (some b) e h' = get_elem?_le s k b e

cut-utf8 :
    (cs : List ℕ) (max : ℕ) → (n : ℕ) × (take (back_up (utf8 cs) max) (utf8 cs) ≡ utf8 (take n cs))
unfolding utf8
cut-utf8 cs max = go (back_up-boundary (utf8 cs) max)
  where
    go :
        (back_up (utf8 cs) max ≡ 0) ⊎ (is_char_boundary (utf8 cs) (back_up (utf8 cs) max) ≡ true)
        → (n : ℕ) × (take (back_up (utf8 cs) max) (utf8 cs) ≡ utf8 (take n cs))
    go (inl z) = (0, ap (λ j. take j (utf8 cs)) z)
    go (inr b) = take-utf8 cs (back_up (utf8 cs) max) b

length-cut :
    (s : Bytes) (max : ℕ)
    → leb (length s) max ≡ false
    → length (take (back_up s max) s) ≡ back_up s max
length-cut s max e =
    let le : back_up s max ≤ max = back_up_le s max in
    let more : max < length s = ground arith in
    length-take (back_up s max) s (omega (arith, le, more))

-- For a text of Unicode characters and every limit, the reason is the text's first characters, some
-- number of them, in at most that many bytes.
pub truncate_utf8-utf8 :
    (cs : List ℕ) (max : ℕ)
    → (n : ℕ) × (truncate_utf8 (utf8 cs) max ≡ utf8 (take n cs))
      × (length (truncate_utf8 (utf8 cs) max) ≤ max)
unfolding truncate_utf8
truncate_utf8-utf8 cs max = go (leb (length (utf8 cs)) max) refl
  where
    go :
        (b : Bool)
        → leb (length (utf8 cs)) max ≡ b
        → (n : ℕ) × ((if b then utf8 cs else take (back_up (utf8 cs) max) (utf8 cs))
            ≡ utf8 (take n cs))
          × (length (if b then utf8 cs else take (back_up (utf8 cs) max) (utf8 cs)) ≤ max)
    go true e = (length cs, ap utf8 (sym (take_all cs)), leb→le _ _ e)
    go false e =
        let (n, t) = cut-utf8 cs max in
        (n, t, omega (arith, length-cut (utf8 cs) max e, back_up_le (utf8 cs) max))

-- If a place in a text is a boundary between characters and within the limit, then the reason
-- reaches that far.
truncate_utf8_longest :
    (s : Bytes) (max k : ℕ)
    → k ≤ max
    → is_char_boundary s k ≡ true
    → k ≤ length (truncate_utf8 s max)
unfolding truncate_utf8
truncate_utf8_longest s max k h e = go (leb (length s) max) refl
  where
    go : (b : Bool) → leb (length s) max ≡ b → k ≤ length (if b then s else take (back_up s max) s)
    go true e' = boundary_le s k e
    go false e' = omega (arith, length-cut s max e', back_up-last s max k h e)
