-- ===== src/HttpRule/Match/Fits/Sound.antt =====
-- What `match_list` (rust/crates/grpc-webnext/src/httprule.rs) accepts does fit the template.
use grpc_webnext.Prelude.{
  ℕ, ◌+◌, ◌≤◌, ◌≡◌, true, false, Bool, List, [], ◌++◌, Option, none, some, Bytes, length, ◌==◌, ltb,
  ltb→lt, if◌then◌else◌, refl, sym, ap, ◌∙◌, subst, arith, append-nil, drop_all,
}
use grpc_webnext.Text.Percent.{Outcome, ok, panic, ◌>>=◌}
use grpc_webnext.HttpRule.Template.{
  Segment, Segments, literal, any_one, any_rest, capture, nil, cons,
}
use grpc_webnext.HttpRule.Match.{
  PathVar, part_is, bind_capture, and_then, match_list, match_one, whole, match_parts,
}
use grpc_webnext.HttpRule.Match.Fits.{Fits, FitsOne, fits_literal, fits_one}
use grpc_webnext.HttpRule.Match.Fits.Took.{
  Took, get_below, part_is_lem, Took-one, Took-nil, Took-rest, Took-cons, Took-capture, bind-none,
}

-- What a segment consumes, and what a list of segments consumes, from any place.
abbrev TookOne : Segment → List Bytes → Type 0
TookOne s parts =
    (i j : ℕ) (vars ws : List PathVar)
    → i ≤ length parts
    → match_one s parts i vars ≡ ok (some (j, ws))
    → Took (FitsOne s) parts i j vars ws

abbrev TookList : Segments → List Bytes → Type 0
TookList ss parts =
    (i j : ℕ) (vars ws : List PathVar)
    → i ≤ length parts
    → match_list ss parts i vars ≡ ok (some (j, ws))
    → Took (Fits ss) parts i j vars ws

TookList-cons :
    (s : Segment) (ss : Segments) (parts : List Bytes)
    → TookOne s parts
    → TookList ss parts
    → TookList (cons s ss) parts
unfolding match_list match_one
TookList-cons s ss parts one list i j vars ws b h = go (match_one s parts i vars) refl h
  where
    go :
        (m : Outcome (Option (ℕ × List PathVar)))
        → match_one s parts i vars ≡ m
        → (m >>= λ r. and_then r (λ k us. match_list ss parts k us)) ≡ ok (some (j, ws))
        → Took (Fits (cons s ss)) parts i j vars ws
    go panic e h' = cc
    go (ok none) e h' = cc
    go (ok (some (k, us))) e h' =
        let t = one i k vars us b e in
        Took-cons s ss parts i k j vars us ws t (list k j us ws t.bound h')

TookOne-literal : (l : Bytes) (parts : List Bytes) → TookOne (literal l) parts
unfolding match_list match_one
TookOne-literal l parts i j vars ws b h = go (part_is parts i l) refl h
  where
    go :
        (t : Bool)
        → part_is parts i l ≡ t
        → if◌then◌else◌ {A = Outcome (Option (ℕ × List PathVar))} t
            (ok (some (i + 1, vars)))
            (ok none)
          ≡ ok (some (j, ws))
        → Took (FitsOne (literal l)) parts i j vars ws
    go true e h' =
        let e' = part_is_lem parts i l e in
        Took-one (FitsOne (literal l)) parts i j vars ws l e' (fits_literal l) h'
    go false e h' = cc

TookOne-any_one : (parts : List Bytes) → TookOne any_one parts
unfolding match_list match_one
TookOne-any_one parts i j vars ws b h = go (ltb i (length parts)) refl h
  where
    go :
        (t : Bool)
        → ltb i (length parts) ≡ t
        → if◌then◌else◌ {A = Outcome (Option (ℕ × List PathVar))} t
            (ok (some (i + 1, vars)))
            (ok none)
          ≡ ok (some (j, ws))
        → Took (FitsOne any_one) parts i j vars ws
    go true e h' =
        let (p, e') = get_below i parts (ltb→lt i (length parts) e) in
        Took-one (FitsOne any_one) parts i j vars ws p e' (fits_one p) h'
    go false e h' = cc

TookOne-capture :
    (field : List Bytes) (ss : Segments) (parts : List Bytes)
    → TookList ss parts
    → TookOne (capture field ss) parts
unfolding match_list match_one
TookOne-capture field ss parts list i j vars ws b h = go (match_list ss parts i vars) refl h
  where
    go :
        (m : Outcome (Option (ℕ × List PathVar)))
        → match_list ss parts i vars ≡ m
        → (m >>= λ r. bind_capture field parts i r) ≡ ok (some (j, ws))
        → Took (FitsOne (capture field ss)) parts i j vars ws
    go panic e h' = cc
    go (ok none) e h' = bind-none field parts i j ws h'
    go (ok (some (k, us))) e h' =
        Took-capture field ss parts i k vars us (list i k vars us b e) j ws h'

mutual
  unfolding match_list match_one

  -- What the matcher consumes is what the segments stand for.
  match_list-Took : (ss : Segments) (parts : List Bytes) → TookList ss parts
  match_list-Took nil parts i j vars ws b h = Took-nil parts i j vars ws b h
  match_list-Took (cons s ss) parts i j vars ws b h =
      TookList-cons s ss parts (match_one-Took s parts) (match_list-Took ss parts) i j vars ws b h

  match_one-Took : (s : Segment) (parts : List Bytes) → TookOne s parts
  match_one-Took (literal l) parts i j vars ws b h = TookOne-literal l parts i j vars ws b h
  match_one-Took any_one parts i j vars ws b h = TookOne-any_one parts i j vars ws b h
  match_one-Took any_rest parts i j vars ws b h = Took-rest parts i j vars ws b h
  match_one-Took (capture field ss) parts i j vars ws b h =
      TookOne-capture field ss parts (match_list-Took ss parts) i j vars ws b h

-- If a path's components match a template's segments with some captured variables, then the
-- components fit the segments in the declarative sense and the captures are the ones it gives:
-- a literal is itself, `*` one component, `**` all that are left, and a capture's value its
-- decoded components joined by `/`.
pub match_parts_sound :
    (segments : Segments) (parts : List Bytes) (vars : List PathVar)
    → match_parts segments parts ≡ ok (some vars)
    → Fits segments parts vars
unfolding match_parts whole
match_parts_sound segments parts vars h = go (match_list segments parts 0 []) refl h
  where
    go :
        (m : Outcome (Option (ℕ × List PathVar)))
        → match_list segments parts 0 [] ≡ m
        → (m >>= λ r. ok (whole parts r)) ≡ ok (some vars)
        → Fits segments parts vars
    go panic e h' = cc
    go (ok none) e h' = cc
    go (ok (some (j, ws))) e h' =
        let t = match_list-Took segments parts 0 j [] ws (omega arith) e in
        let k : (j ≡ length parts) × (ws ≡ vars) = ended (j == length parts) refl h' in
        let all : t.a ≡ parts =
          sym (
            t.split
            ∙ ap (λ r. t.a ++ r) (drop_all j parts (omega (arith, k.0)))
            ∙ append-nil t.a) in
        let same : t.u ≡ vars = sym t.added ∙ k.1 in
        subst (λ ps. Fits segments ps vars) all (subst (λ us. Fits segments t.a us) same t.fits)
      where
        ended :
            (b : Bool)
            → (j == length parts) ≡ b
            → ok (if b then some ws else none) ≡ ok (some vars)
            → (j ≡ length parts) × (ws ≡ vars)
        ended true e'' h'' = (ground arith, cc)
        ended false e'' h'' = cc
