-- ===== src/HttpRule/Match.antt =====
-- `match_segments` and `match_list` of rust/crates/grpc-webnext/src/httprule.rs.
pub mod Fits
pub mod Total
mod Tests
use grpc_webnext.Prelude.{
  ℕ, zero, suc, ◌+◌, ◌-◌, ◌≡◌, Bool, true, false, List, [], ◌∷◌, ◌++◌, Option, none, some, Bytes,
  is_empty, length, take, drop, get_elem?, contains, ltb, ◌==◌, ◌&&◌, ◌||◌, not, str_eq,
  if◌then◌else◌, refl, codes,
}
use grpc_webnext.Text.Str.{split, split_once, trim_matches, join}
use grpc_webnext.Text.Percent.{Outcome, ok, panic, ◌>>=◌, percent_decode}
use grpc_webnext.HttpRule.Template.{
  Segment, Segments, literal, any_one, any_rest, capture, nil, cons, non_empty, parse_template,
}

-- A captured path variable.
abbrev pub PathVar : Type 0
PathVar = List Bytes × Bytes

-- `parts[start..i].iter().map(|p| percent_decode(p))`, in which a call may panic.
unfoldable pub decode_all : List Bytes → Outcome (List Bytes)
decode_all [] = ok []
decode_all (p ∷ ps) = do d ← percent_decode p; ds ← decode_all ps; ok (d ∷ ds)

-- `parts[i]` is this text.
unfoldable pub part_is : List Bytes → ℕ → Bytes → Bool
part_is parts i lit = elim (get_elem? parts i) [ none ↦ false | some p ↦ str_eq p lit ]

-- What a capture does with what its sub-pattern consumed.
unfoldable pub bind_capture :
    List Bytes → List Bytes → ℕ → Option (ℕ × List PathVar) → Outcome (Option (ℕ × List PathVar))
bind_capture field parts start none = ok none
bind_capture field parts start (some (i, vars)) = do
  values ← decode_all (take (i - start) (drop start parts))
  ok (some (i, vars ++ (field, join (codes "/") values) ∷ []))

-- The rest of a list of segments, where the first did fit.
abbrev pub and_then :
    Option (ℕ × List PathVar)
    → (ℕ → List PathVar → Outcome (Option (ℕ × List PathVar)))
    → Outcome (Option (ℕ × List PathVar))
and_then none k = ok none
and_then (some (i, vars)) k = k i vars

unfoldable mutual
  -- `match_list`: the index past what was consumed, with the captures so far.
  pub match_list : Segments → List Bytes → ℕ → List PathVar → Outcome (Option (ℕ × List PathVar))
  match_list nil parts i vars = ok (some (i, vars))
  match_list (cons seg segs) parts i vars = do
    r ← match_one seg parts i vars
    and_then r (λ j ws. match_list segs parts j ws)

  pub match_one : Segment → List Bytes → ℕ → List PathVar → Outcome (Option (ℕ × List PathVar))
  match_one (literal lit) parts i vars =
      if part_is parts i lit then ok (some (i + 1, vars)) else ok none
  match_one any_one parts i vars = if ltb i (length parts) then ok (some (i + 1, vars)) else ok none
  match_one any_rest parts i vars = ok (some (length parts, vars))
  match_one (capture field subs) parts i vars = do
    r ← match_list subs parts i vars
    bind_capture field parts i r

-- `last.split_once(':').unwrap_or((last, ""))`.
unfoldable pub head_and_verb : Bytes → Bytes × Bytes
head_and_verb last = elim (split_once b':' last) [ none ↦ (last, []) | some p ↦ p ]

-- The parts of the path, the last less its verb; `none` where the verb is not the template's.
unfoldable pub strip_verb : Bytes → List Bytes → Option (List Bytes)
unfolding head_and_verb split_once
strip_verb custom_verb [] = if is_empty custom_verb then some [] else none
strip_verb custom_verb (last ∷ []) =
    let (head, verb) = head_and_verb last in
    if not (str_eq verb custom_verb) || (is_empty head && contains last b':')
    then none
    else some (head ∷ [])
strip_verb custom_verb (p ∷ q ∷ ps) = elim (strip_verb custom_verb (q ∷ ps)) [
  | none ↦ none
  | some qs ↦ some (p ∷ qs)
]

unfoldable pub path_parts : Bytes → List Bytes
unfolding split trim_matches
path_parts path = non_empty (split b'/' (trim_matches b'/' path))

-- `(end == parts.len()).then_some(vars)`.
unfoldable pub whole : List Bytes → Option (ℕ × List PathVar) → Option (List PathVar)
whole parts none = none
whole parts (some (end, vars)) = if end == length parts then some vars else none

unfoldable pub match_parts : Segments → List Bytes → Outcome (Option (List PathVar))
match_parts segments parts = do r ← match_list segments parts 0 []; ok (whole parts r)

unfoldable pub match_segments : Segments → Bytes → Bytes → Outcome (Option (List PathVar))
match_segments segments custom_verb path = elim (strip_verb custom_verb (path_parts path)) [
  | none ↦ ok none
  | some parts ↦ match_parts segments parts
]
