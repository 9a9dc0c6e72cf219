-- ===== src/HttpRule/Template.antt =====
-- Path templates of rust/crates/grpc-webnext/src/httprule.rs: the segments, and their parser.
use grpc_webnext.Prelude.{
  ℕ, ◌+◌, ◌-◌, ◌≡◌, List, [], ◌∷◌, ◌++◌, Option, none, some, Bytes, is_empty, map, retain, ◌==◌,
  ◌&&◌, not, str_eq, if◌then◌else◌, refl, codes,
}
use grpc_webnext.Text.Str.{split, split_once, trim_matches, strip_prefix, strip_suffix, join}

-- `Segment`, and the sub-pattern of a capture.
mutual
  pub data Segment : Type 0 where
    literal : Bytes → Segment
    any_one : Segment
    any_rest : Segment
    capture : List Bytes → Segments → Segment

  pub data Segments : Type 0 where
    nil : Segments
    cons : Segment → Segments → Segments

pub collect : List Segment → Segments
collect [] = nil
collect (s ∷ ss) = cons s (collect ss)

-- The loop of `split_outside_braces`: the depth, and the part `s[start..i]` that is open.
split_loop : ℕ → ℕ → Bytes → Bytes → List Bytes
split_loop sep depth cur [] = cur ∷ []
split_loop sep depth cur (c ∷ s) =
    let deeper = split_loop sep (depth + 1) (cur ++ c ∷ []) s in
    let higher = split_loop sep (depth - 1) (cur ++ c ∷ []) s in
    let cut = cur ∷ split_loop sep depth [] s in
    let on = split_loop sep depth (cur ++ c ∷ []) s in
    if c == b'{'
    then deeper
    else if c == b'}'
    then higher
    else if (c == sep) && (depth == 0)
    then cut
    else on

pub split_outside_braces : Bytes → ℕ → List Bytes
unfolding split_loop
split_outside_braces s sep = split_loop sep 0 [] s

pub plain_segment : Bytes → Segment
plain_segment seg =
    if str_eq seg (codes "*")
    then any_one
    else if str_eq seg (codes "**")
    then any_rest
    else literal seg

-- `s.filter(|s| !s.is_empty())`.
abbrev pub non_empty : List Bytes → List Bytes
non_empty parts = retain (λ s. not (is_empty s)) parts

-- `inner.split_once('=').unwrap_or((inner, "*"))`.
split_field : Bytes → Bytes × Bytes
split_field inner = elim (split_once b'=' inner) [ none ↦ (inner, codes "*") | some p ↦ p ]

-- A capture, from the text between the braces.
pub parse_capture : Bytes → Segment
unfolding split split_once split_field collect trim_matches plain_segment
parse_capture inner =
    let (field, pattern') = split_field inner in
    capture (split b'.' field)
      (collect (map plain_segment (non_empty (split b'/' (trim_matches b'/' pattern')))))

-- `seg.strip_prefix('{').and_then(|s| s.strip_suffix('}'))`.
pub braced : Bytes → Option Bytes
unfolding strip_prefix strip_suffix
braced seg = elim (strip_prefix b'{' seg) [ none ↦ none | some s ↦ strip_suffix b'}' s ]

pub parse_segment : Bytes → Segment
unfolding parse_capture braced
parse_segment seg = elim (braced seg) [
  | some inner ↦ parse_capture inner
  | none ↦ plain_segment seg
]

-- `split_outside_braces` gives a part always, so `parts[0]` is there.
path_and_verb : List Bytes → Bytes × Bytes
path_and_verb [] = ([], [])
path_and_verb (path ∷ verbs) = (path, join (codes ":") verbs)

unfoldable pub parse_template : Bytes → Segments × Bytes
unfolding split_outside_braces parse_segment path_and_verb join trim_matches collect
parse_template template =
    let (path, custom_verb) = path_and_verb (split_outside_braces template b':') in
    let parts = non_empty (split_outside_braces (trim_matches b'/' path) b'/') in
    (collect (map parse_segment parts), custom_verb)

shelves : parse_template (codes "/v1/{name=shelves/*}:archive") ≡ (
  cons (literal (codes "v1")) (
      cons (capture (codes "name" ∷ []) (cons (literal (codes "shelves")) (cons any_one nil))) nil),
  codes "archive",
)
unfolding parse_template
shelves = refl
