-- ===== src/HttpRule/Match/Fits/Complete.antt =====
-- The paths that `match_list` (rust/crates/grpc-webnext/src/httprule.rs) does not miss: it never
-- retries, so `**` has to stand last.
use grpc_webnext.Prelude.{
  ◌+◌, ◌-◌, ◌==◌, ◌≡◌, Bool, true, false, ◌&&◌, List, [], ◌∷◌, ◌++◌, some, Bytes, codes, length,
  take, drop, get_elem?, ltb, lt→ltb, str_eq_refl, refl, sym, ap, ◌∙◌, arith, append_assoc,
  append-nil, take-append, drop-append, length-append, get_elem?-drop,
}
use grpc_webnext.Text.Str.{join}
use grpc_webnext.Text.Percent.{ok}
use grpc_webnext.HttpRule.Template.{
  Segment, Segments, literal, any_one, any_rest, capture, nil, cons,
}
use grpc_webnext.HttpRule.Match.{
  PathVar, decode_all, part_is, bind_capture, match_list, match_one, whole, match_parts,
}
use grpc_webnext.HttpRule.Match.Fits.{
  Fits, FitsOne, fits_nil, fits_cons, fits_literal, fits_one, fits_rest, fits_capture,
}

unfoldable pub is_nil : Segments → Bool
is_nil nil = true
is_nil (cons s ss) = false

-- `**` stands nowhere but at the very end, where the segments are the last of the template.
unfoldable mutual
  pub RestLast : Bool → Segments → Type 0
  RestLast last nil = Unit
  RestLast last (cons s ss) = RestLastOne (last && is_nil ss) s × RestLast last ss

  pub RestLastOne : Bool → Segment → Type 0
  RestLastOne last (literal l) = Unit
  RestLastOne last any_one = Unit
  RestLastOne last any_rest = last ≡ true
  RestLastOne last (capture field ss) = RestLast last ss

at_end : (pre a post : List Bytes) → drop (length pre) (pre ++ (a ++ post)) ≡ a ++ post
at_end pre a post = drop-append pre (a ++ post)

here :
    (pre : List Bytes) (p : Bytes) (post : List Bytes)
    → get_elem? (pre ++ p ∷ post) (length pre) ≡ some p
here pre p post = get_elem?-drop (length pre) (pre ++ p ∷ post) p post (drop-append pre (p ∷ post))

one_literal :
    (l : Bytes) (pre post : List Bytes) (vars : List PathVar)
    → match_one (literal l) (pre ++ l ∷ post) (length pre) vars
      ≡ ok (some (length pre + 1, vars ++ []))
unfolding match_list match_one part_is
one_literal l pre post vars =
    rw (match_one, part_is, here pre l post, str_eq_refl l, append-nil vars)

one_any :
    (p : Bytes) (pre post : List Bytes) (vars : List PathVar)
    → match_one any_one (pre ++ p ∷ post) (length pre) vars ≡ ok (some (length pre + 1, vars ++ []))
unfolding match_list match_one
one_any p pre post vars =
    let h : ltb (length pre) (length (pre ++ p ∷ post)) ≡ true =
      lt→ltb (length pre) (length (pre ++ p ∷ post))
        (omega (arith, length-append pre (p ∷ post))) in
    rw (match_one, h, append-nil vars)

one_capture :
    (field : List Bytes) (ss : Segments) (pre a post values : List Bytes) (vars u vs : List PathVar)
    → match_list ss (pre ++ (a ++ post)) (length pre) vars
      ≡ ok (some (length pre + length a, vars ++ u))
    → decode_all a ≡ ok values
    → vs ≡ u ++ (field, join (codes "/") values) ∷ []
    → match_one (capture field ss) (pre ++ (a ++ post)) (length pre) vars
      ≡ ok (some (length pre + length a, vars ++ vs))
unfolding match_list match_one bind_capture
one_capture field ss pre a post values vars u vs e d es =
    let n : (length pre + length a) - length pre ≡ length a = omega arith in
    let same : take ((length pre + length a) - length pre) (drop (length pre) (pre ++ (a ++ post)))
        ≡ a =
      ap (λ m. take m (drop (length pre) (pre ++ (a ++ post)))) n
      ∙ ap (λ r. take (length a) r) (drop-append pre (a ++ post))
      ∙ take-append a post in
    rw (
      match_one,
      e,
      bind_capture,
      same,
      d,
      es,
      append_assoc vars u ((field, join (codes "/") values) ∷ []),
    )

list_cons :
    (s : Segment) (ss : Segments) (pre a b post : List Bytes) (vars u w : List PathVar)
    → match_one s (pre ++ (a ++ (b ++ post))) (length pre) vars
      ≡ ok (some (length pre + length a, vars ++ u))
    → match_list ss ((pre ++ a) ++ (b ++ post)) (length (pre ++ a)) (vars ++ u)
      ≡ ok (some (length (pre ++ a) + length b, (vars ++ u) ++ w))
    → match_list (cons s ss) (pre ++ ((a ++ b) ++ post)) (length pre) vars
      ≡ ok (some (length pre + length (a ++ b), vars ++ (u ++ w)))
unfolding match_list match_one
list_cons s ss pre a b post vars u w e e' =
    let same : pre ++ ((a ++ b) ++ post) ≡ pre ++ (a ++ (b ++ post)) =
      ap (λ r. pre ++ r) (append_assoc a b post) in
    let place : length pre + length (a ++ b) ≡ length (pre ++ a) + length b =
      omega (arith, length-append pre a, length-append a b) in
    rw (
      same,
      e,
      sym (length-append pre a),
      sym (append_assoc pre a (b ++ post)),
      e',
      place,
      append_assoc vars u w,
    )

list_nil :
    (pre post : List Bytes) (vars : List PathVar)
    → match_list nil (pre ++ post) (length pre) vars ≡ ok (some (length pre + 0, vars ++ []))
unfolding match_list match_one
list_nil pre post vars =
    let n : length pre + 0 ≡ length pre = omega arith in rw (append-nil vars, n)

one_rest :
    (pre a post : List Bytes) (vars : List PathVar)
    → post ≡ []
    → match_one any_rest (pre ++ (a ++ post)) (length pre) vars
      ≡ ok (some (length pre + length a, vars ++ []))
unfolding match_list match_one
one_rest pre a post vars e =
    let n : length (pre ++ (a ++ post)) ≡ length pre + length a =
      omega
        (arith, length-append pre (a ++ post), length-append a post, ap (length {A = Bytes}) e) in
    rw (match_one, n, append-nil vars)

-- What follows a segment is nothing, where the segment is the template's last.
nothing_follows :
    (last : Bool) (ss : Segments) (b post : List Bytes) (w : List PathVar)
    → Fits ss b w
    → (last ≡ true → post ≡ [])
    → last && is_nil ss ≡ true
    → b ++ post ≡ []
unfolding is_nil
nothing_follows true nil b post w fits_nil h e = h refl
nothing_follows false nil b post w fits_nil h e = cc
nothing_follows true (cons s ss) b post w f h e = cc
nothing_follows false (cons s ss) b post w f h e = cc

mutual
  unfolding RestLast RestLastOne

  list_complete :
      (last : Bool) (ss : Segments)
      → RestLast last ss
      → (pre a post : List Bytes) (vars u : List PathVar) → (last ≡ true → post ≡ [])
      → Fits ss a u
      → match_list ss (pre ++ (a ++ post)) (length pre) vars
        ≡ ok (some (length pre + length a, vars ++ u))
  list_complete last nil r pre a post vars u h fits_nil = list_nil pre post vars
  list_complete last (cons s ss) (r, rs) pre ps post vars vs h
        (fits_cons {a = a} {b} {u = u} {w} f fs ep ev) =
      let e =
        one_complete (last && is_nil ss) s r pre a (b ++ post) vars u
          (nothing_follows last ss b post w fs h) f in
      let e' = list_complete last ss rs (pre ++ a) b post (vars ++ u) w h fs in
      rw (ep, ev, list_cons s ss pre a b post vars u w e e')

  one_complete :
      (last : Bool) (s : Segment)
      → RestLastOne last s
      → (pre a post : List Bytes) (vars u : List PathVar) → (last ≡ true → post ≡ [])
      → FitsOne s a u
      → match_one s (pre ++ (a ++ post)) (length pre) vars
        ≡ ok (some (length pre + length a, vars ++ u))
  one_complete last (literal l) r pre a post vars u h (fits_literal m) =
      one_literal l pre (post) vars
  one_complete last any_one r pre a post vars u h (fits_one p) = one_any p pre post vars
  one_complete last any_rest r pre a post vars u h (fits_rest c) = one_rest pre a post vars (h r)
  one_complete last (capture field ss) r pre a post vars vs h
        (fits_capture {values = values} {u} f d e) =
      one_capture field ss pre a post values vars u vs
        (list_complete last ss r pre a post vars u h f) d e

-- If a path's components fit a template whose only `**` stands last, with captures whose values
-- all decode, then the matcher matches them with these captures.
pub match_parts_complete :
    (segments : Segments) (parts : List Bytes) (vars : List PathVar)
    → RestLast true segments
    → Fits segments parts vars
    → match_parts segments parts ≡ ok (some vars)
unfolding match_parts whole
match_parts_complete segments parts vars r f =
    let e : match_list segments (parts ++ []) 0 [] ≡ ok (some (0 + length parts, vars)) =
      list_complete true segments r [] parts [] [] vars (λ h. refl) f in
    let n : 0 + length parts ≡ length parts = omega arith in
    let e' : match_list segments parts 0 [] ≡ ok (some (length parts, vars)) =
      ap (λ ps. match_list segments ps 0 []) (sym (append-nil parts))
      ∙ e
      ∙ ap (λ m. ok (some (m, vars))) n in
    let same : (length parts == length parts) ≡ true = ground arith in rw (e', same)
