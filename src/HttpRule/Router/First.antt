-- ===== src/HttpRule/Router/First.antt =====
-- The first binding that serves a request is the one that `match_request`
-- (rust/crates/grpc-webnext/src/httprule.rs) answers with.
use grpc_webnext.Prelude.{
  ◌≡◌, ◌≢◌, ◌⊎◌, inl, inr, Bool, true, false, ◌||◌, List, [], ◌∷◌, ◌++◌, Option, none, some, Bytes,
  codes, str_eq, str_eq→eq, str_eq_refl, All, refl, arith, ap, subst,
}
use grpc_webnext.Text.Str.{to_ascii_uppercase}
use grpc_webnext.Text.Percent.{Outcome, ok, panic, ◌>>=◌}
use grpc_webnext.HttpRule.Match.{PathVar, match_segments, match_parts, strip_verb, path_parts}
use grpc_webnext.HttpRule.Match.Total.{match_segments-ne-panic}
use grpc_webnext.Text.Percent.Faults.{IsAscii}
use grpc_webnext.HttpRule.Match.Fits.{Fits}
use grpc_webnext.HttpRule.Match.Fits.Sound.{match_parts_sound}
use grpc_webnext.HttpRule.Router.{Binding, accepts, or_next, match_request, find}

-- The template of a binding stands for a path, with these captures.
Stands : Binding → Bytes → List PathVar → Type 0
Stands b path vars =
    (parts : List Bytes) × (strip_verb b.custom_verb (path_parts path) ≡ some parts)
    × Fits b.segments parts vars

Passed : Bytes → Binding → Type 0
Passed path b = match_segments b.segments b.custom_verb path ≡ ok none

-- The answer is the first binding of a list that may serve and stands for the path; every one
-- before it may not, or does not match.
pub First :
    (Binding → Type 0)
    → (Binding → Type 0)
    → Bytes
    → List Binding
    → Option (Binding × List PathVar)
    → Type 0
First May Not path bindings none = All (λ b. Not b ⊎ Passed path b) bindings
First May Not path bindings (some (b, vars)) =
    (before after : List Binding) × (bindings ≡ before ++ b ∷ after)
    × May b
    × Stands b path vars
    × All (λ b'. Not b' ⊎ Passed path b') before

match_segments-Stands :
    (b : Binding) (path : Bytes) (vars : List PathVar)
    → match_segments b.segments b.custom_verb path ≡ ok (some vars)
    → Stands b path vars
unfolding match_segments Stands
match_segments-Stands b path vars h = go (strip_verb b.custom_verb (path_parts path)) refl h
  where
    go :
        (o : Option (List Bytes))
        → strip_verb b.custom_verb (path_parts path) ≡ o
        → elim o [ none ↦ ok none | some parts ↦ match_parts b.segments parts ] ≡ ok (some vars)
        → Stands b path vars
    go none e h' = cc
    go (some parts) e h' = (parts, e, match_parts_sound b.segments parts vars h')

module _ (May Not : Binding → Type 0) (path : Bytes) where
  First-skip :
      (b : Binding) (bs : List Binding) (r : Option (Binding × List PathVar))
      → Not b ⊎ Passed path b
      → First May Not path bs r
      → First May Not path (b ∷ bs) r
  unfolding First
  First-skip b bs none n f = (n, f)
  First-skip b bs (some (c, vars)) n (before, after, e, m, s, all) =
      (b ∷ before, after, ap (λ r. b ∷ r) e, m, s, (n, all))

  First-here :
      (b : Binding) (bs : List Binding) (vars : List PathVar)
      → May b
      → match_segments b.segments b.custom_verb path ≡ ok (some vars)
      → First May Not path (b ∷ bs) (some (b, vars))
  unfolding First
  First-here b bs vars m e = ([], bs, refl, m, match_segments-Stands b path vars e, tt)

-- The method of a binding is this one, or `*`.
pub Serves : Bytes → Binding → Type 0
Serves want b = (b.http_method ≡ want) ⊎ (b.http_method ≡ codes "*")

accepts-Serves : (want : Bytes) (b : Binding) → accepts want b ≡ true → Serves want b
unfolding accepts Serves
accepts-Serves want b h =
    go (str_eq b.http_method want) (str_eq b.http_method (codes "*")) refl refl h
  where
    go :
        (s t : Bool)
        → str_eq b.http_method want ≡ s
        → str_eq b.http_method (codes "*") ≡ t
        → s || t ≡ true
        → Serves want b
    go true t es et h' = inl (str_eq→eq b.http_method want es)
    go false true es et h' = inr (str_eq→eq b.http_method (codes "*") et)
    go false false es et h' = cc

refused-Serves : (want : Bytes) (b : Binding) → accepts want b ≡ false → ¬ Serves want b
unfolding accepts Serves
refused-Serves want b h (inl e) =
    let k : str_eq b.http_method want ≡ true = rw e (str_eq_refl want) in ground arith
refused-Serves want b h (inr e) =
    let k : str_eq b.http_method (codes "*") ≡ true = rw e (str_eq_refl (codes "*")) in ground arith

ByMethod : Bytes → Bytes → List Binding → Option (Binding × List PathVar) → Type 0
ByMethod want path bs r = First (Serves want) (λ b. ¬ Serves want b) path bs r

find-step :
    (want path : Bytes) (b : Binding) (bs : List Binding) (r : Option (Binding × List PathVar))
    → (find want path bs ≡ ok r → ByMethod want path bs r)
    → find want path (b ∷ bs) ≡ ok r
    → ByMethod want path (b ∷ bs) r
unfolding find ByMethod Passed or_next
find-step want path b bs r ih h = go (accepts want b) refl h
  where
    matched :
        (m : Outcome (Option (List PathVar)))
        → match_segments b.segments b.custom_verb path ≡ m
        → Serves want b
        → (m >>= λ o. or_next (λ vars. (b, vars)) o (find want path bs)) ≡ ok r
        → First (Serves want) (λ b. ¬ Serves want b) path (b ∷ bs) r
    matched panic e' k h'' = cc
    matched (ok none) e' k h'' = First-skip (Serves want) _ path b bs r (inr e') (ih h'')
    matched (ok (some vars)) e' k h'' =
        let e : ◌≡◌ {A = Option (Binding × List PathVar)} (some (b, vars)) r = cc in
        subst (First (Serves want) (λ b. ¬ Serves want b) path (b ∷ bs)) e
          (First-here (Serves want) _ path b bs vars k e')

    go :
        (t : Bool)
        → accepts want b ≡ t
        → elim t [
          | true ↦ match_segments b.segments b.custom_verb path >>= λ o.
              or_next (λ vars. (b, vars)) o (find want path bs)
          | false ↦ find want path bs
        ]
          ≡ ok r
        → First (Serves want) (λ b. ¬ Serves want b) path (b ∷ bs) r
    go false e h' = First-skip (Serves want) _ path b bs r (inl (refused-Serves want b e)) (ih h')
    go true e h' =
        matched (match_segments b.segments b.custom_verb path) refl (accepts-Serves want b e) h'

find_nil : (want path : Bytes) → ByMethod want path [] none
unfolding ByMethod First
find_nil want path = tt

find_nil_some :
    (want path : Bytes) (x : Binding × List PathVar)
    → find want path [] ≡ ok (some x)
    → ByMethod want path [] (some x)
unfolding find
find_nil_some want path x h = absurd cc

find-First :
    (want path : Bytes) (bs : List Binding) (r : Option (Binding × List PathVar))
    → find want path bs ≡ ok r
    → ByMethod want path bs r
find-First want path [] none h = find_nil want path
find-First want path [] (some x) h = find_nil_some want path x h
find-First want path (b ∷ bs) r h = find-step want path b bs r (find-First want path bs r) h

-- If the lookup of a request answers at all, then it answers with the first binding, in the order
-- of compilation, whose method is the upper-case form of the request's or `*` and whose template
-- stands for the path (its custom verb included), with the captures of that template; every
-- binding before it has another method or does not match; and it answers with none only if that
-- holds of all bindings.
pub match_request-First :
    (bindings : List Binding) (method path : Bytes) (r : Option (Binding × List PathVar))
    → match_request bindings method path ≡ ok r
    → First
        (Serves (to_ascii_uppercase method))
        (λ b. ¬ Serves (to_ascii_uppercase method) b)
        path
        bindings
        r
unfolding match_request ByMethod
match_request-First bindings method path r h =
    find-First (to_ascii_uppercase method) path bindings r h

find-ne-panic :
    (want path : Bytes) (bs : List Binding) → All IsAscii path → find want path bs ≢ panic
unfolding find or_next
find-ne-panic want path [] h = λ e. cc
find-ne-panic want path (b ∷ bs) h =
    go (accepts want b) (match_segments b.segments b.custom_verb path)
      (match_segments-ne-panic b.segments b.custom_verb path h) (find-ne-panic want path bs h)
  where
    go :
        (t : Bool) (m : Outcome (Option (List PathVar)))
        → m ≢ panic
        → find want path bs ≢ panic
        → elim t [
          | true ↦ m >>= λ o. or_next (λ vars. (b, vars)) o (find want path bs)
          | false ↦ find want path bs
        ]
          ≢ panic
    go false m k ih = ih
    go true (ok none) k ih = ih
    go true (ok (some vars)) k ih = λ e. cc
    go true panic k ih = absurd (k refl)

-- If the request's path is ASCII, then the lookup does answer: no percent-decoding of a captured
-- component panics.
pub match_request_total :
    (bindings : List Binding) (method path : Bytes)
    → All IsAscii path
    → (r : Option (Binding × List PathVar)) × (match_request bindings method path ≡ ok r)
unfolding match_request
match_request_total bindings method path h =
    go (find (to_ascii_uppercase method) path bindings) (find-ne-panic _ path bindings h)
  where
    go :
        (m : Outcome (Option (Binding × List PathVar)))
        → m ≢ panic
        → (r : Option (Binding × List PathVar)) × (m ≡ ok r)
    go (ok r) k = (r, refl)
    go panic k = absurd (k refl)
