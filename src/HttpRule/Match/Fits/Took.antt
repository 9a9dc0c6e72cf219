-- ===== src/HttpRule/Match/Fits/Took.antt =====
-- What a part of a template consumes of a path (`match_list`, `match_one` and `bind_capture` of
-- rust/crates/grpc-webnext/src/httprule.rs), from a place to a place.
use grpc_webnext.Prelude.{
  ℕ, zero, suc, ◌+◌, ◌-◌, ◌≤◌, ◌<◌, ◌≡◌, true, false, List, [], ◌∷◌, ◌++◌, Option, none, some,
  Bytes, length, take, drop, get_elem?, str_eq, str_eq→eq, refl, sym, ap, ◌∙◌, arith, append_assoc,
  append-nil, codes, take-append, length-append, length-drop, drop_all,
}
use grpc_webnext.Text.Str.{join}
use grpc_webnext.Text.Percent.{Outcome, ok, panic, ◌>>=◌}
use grpc_webnext.HttpRule.Template.{Segment, Segments, any_rest, capture, nil, cons}
use grpc_webnext.HttpRule.Match.{PathVar, decode_all, part_is, bind_capture}
use grpc_webnext.HttpRule.Match.Fits.{Fits, FitsOne, fits_nil, fits_cons, fits_rest, fits_capture}

-- From `i` to `j` the components `a` were consumed, and the captures `u` were added, as `R` says.
pub record Took (R : List Bytes → List PathVar → Type 0) (parts : List Bytes) (i j : ℕ)
    (vars ws : List PathVar) : Type 0 where
  pub a : List Bytes
  pub u : List PathVar
  reach : j ≡ i + length a
  pub bound : j ≤ length parts
  pub split : drop i parts ≡ a ++ drop j parts
  pub added : ws ≡ vars ++ u
  pub fits : R a u

-- What answered, where a sequence of two calls answers.
pub >>=-eq-ok {κ ℓ} :
    {B : Type κ} {A : Type ℓ} {answer : B} (first : Outcome A) (next : A → Outcome B)
    → first >>= next ≡ ok answer
    → (value : A) × (first ≡ ok value) × (next value ≡ ok answer)
>>=-eq-ok panic next same = cc
>>=-eq-ok (ok value) next same = (value, refl, same)

drop_cons :
    (i : ℕ) (parts : List Bytes) (p : Bytes)
    → get_elem? parts i ≡ some p
    → (drop i parts ≡ p ∷ drop (i + 1) parts) × (i + 1 ≤ length parts)
drop_cons i [] p e = cc
drop_cons zero (x ∷ parts) p e = ground arith
drop_cons (suc i) (x ∷ parts) p e = ground (arith, drop_cons i parts p e)

pub get_below :
    (i : ℕ) (parts : List Bytes) → i < length parts → (p : Bytes) × (get_elem? parts i ≡ some p)
get_below i [] h = absurd (omega arith)
get_below zero (x ∷ parts) h = (x, refl)
get_below (suc i) (x ∷ parts) h = get_below i parts (omega arith)

pub part_is_lem :
    (parts : List Bytes) (i : ℕ) (l : Bytes) → part_is parts i l ≡ true → get_elem? parts i ≡ some l
unfolding part_is
part_is_lem parts i l e = go (get_elem? parts i) e
  where
    go : (o : Option Bytes) → elim o [ none ↦ false | some p ↦ str_eq p l ] ≡ true → o ≡ some l
    go none h = cc
    go (some p) h = ap some (str_eq→eq p l h)

-- The place and the captures of a match.
place-eq :
    {i j : ℕ} {us ws : List PathVar}
    → ◌≡◌ {A = Outcome (Option (ℕ × List PathVar))} (ok (some (i, us))) (ok (some (j, ws)))
    → (i ≡ j) × (us ≡ ws)
place-eq h = (cc, cc)

-- One component is consumed, and nothing captured.
pub Took-one :
    (R : List Bytes → List PathVar → Type 0) (parts : List Bytes) (i j : ℕ) (vars ws : List PathVar)
    → (p : Bytes) → get_elem? parts i ≡ some p
    → R (p ∷ []) []
    → ◌≡◌ {A = Outcome (Option (ℕ × List PathVar))} (ok (some (i + 1, vars))) (ok (some (j, ws)))
    → Took R parts i j vars ws
Took-one R parts i j vars ws p e r h =
    let k : (drop i parts ≡ p ∷ drop (i + 1) parts) × (i + 1 ≤ length parts) =
      drop_cons i parts p e in
    let ej : i + 1 ≡ j = cc in
    let ew : vars ≡ ws = cc in
    record {
      a = p ∷ [];
      u = [];
      reach = omega (arith, ej);
      bound = omega (arith, ej, k.1);
      split = k.0 ∙ ap (λ n. p ∷ drop n parts) ej;
      added = sym ew ∙ sym (append-nil vars);
      fits = r;
    }

pub Took-nil :
    (parts : List Bytes) (i j : ℕ) (vars ws : List PathVar)
    → i ≤ length parts
    → ◌≡◌ {A = Outcome (Option (ℕ × List PathVar))} (ok (some (i, vars))) (ok (some (j, ws)))
    → Took (Fits nil) parts i j vars ws
Took-nil parts i j vars ws b h =
    let ej : i ≡ j = cc in
    let ew : vars ≡ ws = cc in
    record {
      a = [];
      u = [];
      reach = omega (arith, ej);
      bound = omega (arith, ej, b);
      split = ap (λ n. drop n parts) ej;
      added = sym ew ∙ sym (append-nil vars);
      fits = fits_nil;
    }

pub Took-rest :
    (parts : List Bytes) (i j : ℕ) (vars ws : List PathVar)
    → i ≤ length parts
    → ◌≡◌ {A = Outcome (Option (ℕ × List PathVar))}
        (ok (some (length parts, vars)))
        (ok (some (j, ws)))
    → Took (FitsOne any_rest) parts i j vars ws
Took-rest parts i j vars ws b h =
    let ej : length parts ≡ j = cc in
    let ew : vars ≡ ws = cc in
    record {
      a = drop i parts;
      u = [];
      reach = omega (arith, ej, b, length-drop i parts);
      bound = omega (arith, ej);
      split =
          sym (append-nil (drop i parts))
          ∙ ap (λ r. drop i parts ++ r) (sym (drop_all j parts (omega (arith, ej))));
      added = sym ew ∙ sym (append-nil vars);
      fits = fits_rest (drop i parts);
    }

pub Took-cons :
    (s : Segment) (ss : Segments) (parts : List Bytes) (i k j : ℕ) (vars us ws : List PathVar)
    → Took (FitsOne s) parts i k vars us
    → Took (Fits ss) parts k j us ws
    → Took (Fits (cons s ss)) parts i j vars ws
Took-cons s ss parts i k j vars us ws t t' = record {
  a = t.a ++ t'.a;
  u = t.u ++ t'.u;
  reach = omega (arith, t.reach, t'.reach, length-append t.a t'.a);
  bound = t'.bound;
  split = t.split ∙ ap (λ r. t.a ++ r) t'.split ∙ sym (append_assoc t.a t'.a (drop j parts));
  added = t'.added ∙ ap (λ r. r ++ t'.u) t.added ∙ append_assoc vars t.u t'.u;
  fits = fits_cons t.fits t'.fits refl refl;
}

pub Took-capture :
    (field : List Bytes) (ss : Segments) (parts : List Bytes) (i k : ℕ) (vars us : List PathVar)
    → Took (Fits ss) parts i k vars us
    → (j : ℕ) (ws : List PathVar) → bind_capture field parts i (some (k, us)) ≡ ok (some (j, ws))
    → Took (FitsOne (capture field ss)) parts i j vars ws
unfolding bind_capture
Took-capture field ss parts i k vars us t j ws h =
    let (ds, e, e') = >>=-eq-ok (decode_all (take (k - i) (drop i parts))) _ h in
    let ej : k ≡ j = cc in
    let ew : us ++ (field, join (codes "/") ds) ∷ [] ≡ ws = cc in
    let n : k - i ≡ length t.a = omega (arith, t.reach) in
    let same : take (k - i) (drop i parts) ≡ t.a =
      ap (λ m. take m (drop i parts)) n
      ∙ ap (λ r. take (length t.a) r) t.split
      ∙ take-append t.a (drop k parts) in
    record {
      a = t.a;
      u = t.u ++ (field, join (codes "/") ds) ∷ [];
      reach = omega (arith, t.reach, ej);
      bound = omega (arith, t.bound, ej);
      split = t.split ∙ ap (λ m. t.a ++ drop m parts) ej;
      added =
          sym ew
          ∙ ap (λ r. r ++ (field, join (codes "/") ds) ∷ []) t.added
          ∙ append_assoc vars t.u _;
      fits = fits_capture t.fits (ap decode_all (sym same) ∙ e) refl;
    }

pub bind-none :
    (field : List Bytes) (parts : List Bytes) (i j : ℕ) (ws : List PathVar) {X : Type 0}
    → bind_capture field parts i none ≡ ok (some (j, ws))
    → X
unfolding bind_capture
bind-none field parts i j ws h = absurd cc
