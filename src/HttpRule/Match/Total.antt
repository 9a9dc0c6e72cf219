-- ===== src/HttpRule/Match/Total.antt =====
-- On an ASCII path no lookup of rust/crates/grpc-webnext/src/httprule.rs panics.
use grpc_webnext.Prelude.{
  ℕ, zero, suc, ◌-◌, ◌≡◌, ◌≢◌, Bool, true, false, ◌||◌, ◌&&◌, not, List, [], ◌∷◌, Option, none,
  some, Bytes, is_empty, contains, str_eq, ltb, length, take, drop, All, All-drop, if◌then◌else◌,
  refl, subst,
}
use grpc_webnext.Text.Str.{trim_matches, split_once}
use grpc_webnext.Text.Str.Pieces.{trim_matches-All, split-All, split_once-All}
use grpc_webnext.Text.Percent.{Outcome, ok, panic, ◌>>=◌, percent_decode}
use grpc_webnext.Text.Percent.Faults.{IsAscii, percent_decode-ne-panic}
use grpc_webnext.HttpRule.Template.{
  Segment, Segments, literal, any_one, any_rest, capture, nil, cons, non_empty,
}
use grpc_webnext.HttpRule.Match.{
  PathVar, decode_all, part_is, bind_capture, and_then, match_list, match_one, match_parts,
  match_segments, strip_verb, path_parts, head_and_verb,
}

abbrev Ascii : List Bytes → Type 0
Ascii = All (All IsAscii)

All-take : (n : ℕ) (ps : List Bytes) → Ascii ps → Ascii (take n ps)
All-take zero ps h = tt
All-take (suc n) [] h = tt
All-take (suc n) (p ∷ ps) (hp, h) = (hp, All-take n ps h)

>>=-ne-panic :
    {A B : Type 0} (m : Outcome A) (f : A → Outcome B)
    → m ≢ panic
    → ((a : A) → f a ≢ panic)
    → (m >>= f) ≢ panic
>>=-ne-panic (ok a) f h k = k a
>>=-ne-panic panic f h k = absurd (h refl)

ok-ne-panic : {A : Type 0} (a : A) → ok a ≢ panic
ok-ne-panic a e = cc

decode_all-ne-panic : (ps : List Bytes) → Ascii ps → decode_all ps ≢ panic
unfolding decode_all
decode_all-ne-panic [] h = ok-ne-panic []
decode_all-ne-panic (p ∷ ps) (hp, h) =
    >>=-ne-panic (percent_decode p) _ (percent_decode-ne-panic p hp)
      (λ d. >>=-ne-panic (decode_all ps) _ (decode_all-ne-panic ps h) (λ ds. ok-ne-panic (d ∷ ds)))

bind_capture-ne-panic :
    (f parts : List Bytes) (i : ℕ) (r : Option (ℕ × List PathVar))
    → Ascii parts
    → bind_capture f parts i r ≢ panic
unfolding bind_capture
bind_capture-ne-panic f parts i none h = ok-ne-panic none
bind_capture-ne-panic f parts i (some (j, vars)) h =
    >>=-ne-panic (decode_all (take (j - i) (drop i parts))) _
      (decode_all-ne-panic _ (All-take (j - i) (drop i parts) (All-drop (All IsAscii) i parts h)))
      (λ vs. ok-ne-panic _)

if-ne-panic :
    {A : Type 0} (b : Bool) (x y : A) → if◌then◌else◌ {A = Outcome A} b (ok x) (ok y) ≢ panic
if-ne-panic true x y = ok-ne-panic x
if-ne-panic false x y = ok-ne-panic y

and_then-ne-panic :
    (r : Option (ℕ × List PathVar)) (k : ℕ → List PathVar → Outcome (Option (ℕ × List PathVar)))
    → ((j : ℕ) (ws : List PathVar) → k j ws ≢ panic)
    → and_then r k ≢ panic
and_then-ne-panic none k h = ok-ne-panic none
and_then-ne-panic (some (j, ws)) k h = h j ws

mutual
  unfolding match_list match_one

  match_list-ne-panic :
      (ss : Segments) (parts : List Bytes) (i : ℕ) (vars : List PathVar)
      → Ascii parts
      → match_list ss parts i vars ≢ panic
  match_list-ne-panic nil parts i vars h = ok-ne-panic _
  match_list-ne-panic (cons s ss) parts i vars h =
      >>=-ne-panic (match_one s parts i vars) _ (match_one-ne-panic s parts i vars h)
        (λ r. and_then-ne-panic r _ (λ j ws. match_list-ne-panic ss parts j ws h))

  match_one-ne-panic :
      (s : Segment) (parts : List Bytes) (i : ℕ) (vars : List PathVar)
      → Ascii parts
      → match_one s parts i vars ≢ panic
  match_one-ne-panic (literal l) parts i vars h = if-ne-panic (part_is parts i l) _ _
  match_one-ne-panic any_one parts i vars h = if-ne-panic (ltb i (length parts)) _ _
  match_one-ne-panic any_rest parts i vars h = ok-ne-panic _
  match_one-ne-panic (capture f ss) parts i vars h =
      >>=-ne-panic (match_list ss parts i vars) _ (match_list-ne-panic ss parts i vars h)
        (λ r. bind_capture-ne-panic f parts i r h)

non_empty-Ascii : (ps : List Bytes) → Ascii ps → Ascii (non_empty ps)
non_empty-Ascii [] h = tt
non_empty-Ascii ([] ∷ ps) (hp, h) = non_empty-Ascii ps h
non_empty-Ascii ((c ∷ p) ∷ ps) (hp, h) = (hp, non_empty-Ascii ps h)

path_parts-Ascii : (path : Bytes) → All IsAscii path → Ascii (path_parts path)
unfolding path_parts
path_parts-Ascii path h =
    non_empty-Ascii _
      (split-All IsAscii b'/' (trim_matches b'/' path) (trim_matches-All IsAscii b'/' path h))

head_and_verb-Ascii : (last : Bytes) → All IsAscii last → All IsAscii (head_and_verb last).0
unfolding head_and_verb
head_and_verb-Ascii last h = go (split_once b':' last) (split_once-All IsAscii b':' last)
  where
    go :
        (o : Option (Bytes × Bytes))
        → ((a b : Bytes) → All IsAscii last → o ≡ some (a, b) → All IsAscii a × All IsAscii b)
        → (let r : Bytes × Bytes = elim o [ none ↦ (last, []) | some p ↦ p ] in All IsAscii r.0)
    go none k = h
    go (some (a, b)) k = (k a b h refl).0

strip_verb-Ascii :
    (verb : Bytes) (ps qs : List Bytes) → Ascii ps → strip_verb verb ps ≡ some qs → Ascii qs
unfolding strip_verb
strip_verb-Ascii verb [] qs h e = go (is_empty verb) e
  where
    go : (b : Bool) → (if b then some [] else none) ≡ some qs → Ascii qs
    go true e' = let eq : [] ≡ qs = cc in subst Ascii eq tt
    go false e' = cc
strip_verb-Ascii verb (last ∷ []) qs (h, hn) e =
    go
      (not (str_eq (head_and_verb last).1 verb)
        || (is_empty (head_and_verb last).0 && contains last b':'))
      e
  where
    go : (b : Bool) → (if b then none else some ((head_and_verb last).0 ∷ [])) ≡ some qs → Ascii qs
    go true e' = cc
    go false e' =
        let eq : (head_and_verb last).0 ∷ [] ≡ qs = cc in
        subst Ascii eq (head_and_verb-Ascii last h, tt)
strip_verb-Ascii verb (p ∷ q ∷ ps) qs (hp, h) e =
    go (strip_verb verb (q ∷ ps)) (λ rs e'. strip_verb-Ascii verb (q ∷ ps) rs h e') e
  where
    go :
        (o : Option (List Bytes))
        → ((rs : List Bytes) → o ≡ some rs → Ascii rs)
        → elim o [ none ↦ none | some rs ↦ some (p ∷ rs) ] ≡ some qs
        → Ascii qs
    go none k e' = cc
    go (some rs) k e' = let eq : p ∷ rs ≡ qs = cc in subst Ascii eq (hp, k rs refl)

pub match_segments-ne-panic :
    (segments : Segments) (verb path : Bytes)
    → All IsAscii path
    → match_segments segments verb path ≢ panic
unfolding match_segments match_parts
match_segments-ne-panic segments verb path h =
    go (strip_verb verb (path_parts path))
      (λ ps. strip_verb-Ascii verb (path_parts path) ps (path_parts-Ascii path h))
  where
    go :
        (o : Option (List Bytes))
        → ((ps : List Bytes) → o ≡ some ps → Ascii ps)
        → elim o [ none ↦ ok none | some parts ↦ match_parts segments parts ] ≢ panic
    go none k = ok-ne-panic none
    go (some ps) k =
        >>=-ne-panic (match_list segments ps 0 []) _
          (match_list-ne-panic segments ps 0 [] (k ps refl)) (λ r. ok-ne-panic _)
