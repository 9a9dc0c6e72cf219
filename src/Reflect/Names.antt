-- ===== src/Reflect/Names.antt =====
-- Names in a list, of rust/crates/grpc-webnext/src/reflect.rs.
use grpc_webnext.Prelude.{
  ◌≡◌, ◌≢◌, List, [], ◌∷◌, none, some, Bool, true, false, ◌||◌, Bytes, any, map, All, str_eq,
  str_eq→eq, str_leb, if◌then◌else◌, refl,
}
use grpc_webnext.Reflect.{Files, look_up, insert_name, sort_names}

-- A name stands in a list, and a file of this name among the files.
pub data Among (n : Bytes) : List Bytes → Type 0 where
  here : (ns : List Bytes) → Among n (n ∷ ns)
  there : (m : Bytes) (ns : List Bytes) → Among n ns → Among n (m ∷ ns)

abbrev pub names : Files → List Bytes
names fs = map (λ f. f.0) fs

pub any-Among : (n : Bytes) (ns : List Bytes) → any (λ s. str_eq s n) ns ≡ true → Among n ns
any-Among n [] e = cc
any-Among n (m ∷ ns) e = go (str_eq m n) refl e (any-Among n ns)
  where
    go :
        (b : Bool)
        → str_eq m n ≡ b
        → b || any (λ s. str_eq s n) ns ≡ true
        → (any (λ s. str_eq s n) ns ≡ true → Among n ns)
        → Among n (m ∷ ns)
    go true q e ih = rw (str_eq→eq m n q) (here ns)
    go false q e ih = there m ns (ih e)

insert_name-Among_old : (x n : Bytes) (ms : List Bytes) → Among x ms → Among x (insert_name n ms)
unfolding insert_name
insert_name-Among_old x n [] o = elim o [ ]
insert_name-Among_old x n (m ∷ ms) o = go (str_leb n m) x o (insert_name-Among_old x n ms)
  where
    go :
        (b : Bool) (y : Bytes)
        → Among y (m ∷ ms)
        → (Among y ms → Among y (insert_name n ms))
        → Among y (if b then n ∷ m ∷ ms else m ∷ insert_name n ms)
    go true y q ih = there n (m ∷ ms) q
    go false y (here rest) ih = here (insert_name n ms)
    go false y (there p rest q) ih = there m (insert_name n ms) (ih q)

insert_name-Among_new : (n : Bytes) (ms : List Bytes) → Among n (insert_name n ms)
unfolding insert_name
insert_name-Among_new n [] = here []
insert_name-Among_new n (m ∷ ms) = go (str_leb n m) (insert_name-Among_new n ms)
  where
    go :
        (b : Bool)
        → Among n (insert_name n ms)
        → Among n (if b then n ∷ m ∷ ms else m ∷ insert_name n ms)
    go true ih = here (m ∷ ms)
    go false ih = there m (insert_name n ms) ih

pub sort_names-Among : (n : Bytes) (ns : List Bytes) → Among n ns → Among n (sort_names ns)
unfolding sort_names
sort_names-Among n [] o = elim o [ ]
sort_names-Among n (m ∷ ns) (here rest) = insert_name-Among_new n (sort_names ns)
sort_names-Among n (m ∷ ns) (there p rest o) =
    insert_name-Among_old n m (sort_names ns) (sort_names-Among n ns o)

pub look_up-Among : (files : Files) (n : Bytes) → look_up files n ≢ none → Among n (names files)
unfolding look_up
look_up-Among [] n p = absurd (p refl)
look_up-Among ((m, f) ∷ files) n p = go (str_eq m n) refl p (look_up-Among files n)
  where
    go :
        (b : Bool)
        → str_eq m n ≡ b
        → (if b then some f else look_up files n) ≢ none
        → (look_up files n ≢ none → Among n (names files))
        → Among n (m ∷ names files)
    go true e q ih = rw (str_eq→eq m n e) (here (names files))
    go false e q ih = there m (names files) (ih q)

pub All-Among : (P : Bytes → Type 0) (n : Bytes) (ns : List Bytes) → All P ns → Among n ns → P n
All-Among P n [] h o = elim o [ ]
All-Among P n (m ∷ ns) (h, hs) (here rest) = h
All-Among P n (m ∷ ns) (h, hs) (there p rest o) = All-Among P n ns hs o
