-- ===== src/Reflect/Fetch/Missing.antt =====
-- How many names a list of requests leaves out, for the driver of rust/crates/grpc-webnext/src/reflect.rs.
use grpc_webnext.Prelude.{
  ℕ, ◌+◌, ◌≤◌, ◌≡◌, List, [], ◌∷◌, ◌++◌, Bool, true, false, ◌||◌, Bytes, any, length, str_eq,
  str_eq_refl, if◌then◌else◌, refl, arith,
}
use grpc_webnext.Reflect.Names.{Among, here, there}

-- A name stands in a list that another is put behind.
pub Among-append_left : (n : Bytes) (xs ys : List Bytes) → Among n xs → Among n (xs ++ ys)
Among-append_left n [] ys h = elim h [ ]
Among-append_left n (m ∷ xs) ys (here _) = here (xs ++ ys)
Among-append_left n (m ∷ xs) ys (there _ _ h) = there m (xs ++ ys) (Among-append_left n xs ys h)

pub Among-append_right : (n : Bytes) (xs ys : List Bytes) → Among n ys → Among n (xs ++ ys)
Among-append_right n [] ys h = h
Among-append_right n (m ∷ xs) ys h = there m (xs ++ ys) (Among-append_right n xs ys h)

-- How many of the names were not requested.
unfoldable pub missing : List Bytes → List Bytes → ℕ
missing [] requested = 0
missing (u ∷ us) requested =
    let rest = missing us requested in if any (λ n. str_eq n u) requested then rest else rest + 1

-- A request makes fewer names missing.
pub missing-le :
    (us : List Bytes) (d : Bytes) (req : List Bytes) → missing us (d ∷ req) ≤ missing us req
unfolding missing
missing-le [] d req = omega arith
missing-le (u ∷ us) d req = go (str_eq d u) (any (λ n. str_eq n u) req) (missing-le us d req)
  where
    go :
        (a b : Bool)
        → missing us (d ∷ req) ≤ missing us req
        → (if a || b then missing us (d ∷ req) else missing us (d ∷ req) + 1)
          ≤ (if b then missing us req else missing us req + 1)
    go true true h = h
    go true false h = omega arith
    go false true h = h
    go false false h = omega arith

pub missing-lt :
    (us : List Bytes) (d : Bytes) (req : List Bytes)
    → Among d us
    → any (λ n. str_eq n d) req ≡ false
    → missing us (d ∷ req) + 1 ≤ missing us req
unfolding missing
missing-lt [] d req h e = elim h [ ]
missing-lt (u ∷ us) d req (here _) e = rw (str_eq_refl u, e) (omega (arith, missing-le us u req))
missing-lt (u ∷ us) d req (there _ _ h) e =
    go (str_eq d u) (any (λ n. str_eq n u) req) (missing-lt us d req h e)
  where
    go :
        (a b : Bool)
        → missing us (d ∷ req) + 1 ≤ missing us req
        → (if a || b then missing us (d ∷ req) else missing us (d ∷ req) + 1) + 1
          ≤ (if b then missing us req else missing us req + 1)
    go true true h = h
    go true false h = omega arith
    go false true h = h
    go false false h = omega arith

-- Where no request was made, all names are missing.
pub missing_all : (us : List Bytes) → missing us [] ≡ length us
unfolding missing
missing_all [] = refl
missing_all (u ∷ us) = omega (arith, missing_all us)
