-- ===== src/Client/Metadata/Laws.antt =====
-- Insertion, removal and lookup in the metadata of rust/crates/grpc-webnext-client/src/metadata.rs.
use grpc_webnext.Prelude.{
  ◌≡◌, ◌≢◌, List, [], ◌∷◌, ◌++◌, none, some, Bool, true, false, not, Bytes, str_eq, str_eq→eq,
  str_eq_refl, str_eq-false, retain, if◌then◌else◌, refl, sym, ◌∙◌,
}
use grpc_webnext.Text.Str.{to_ascii_lowercase}
use grpc_webnext.Client.Metadata.{
  ascii, binary, Entry, Metadata, has_key, remove, insert, find_ascii, get,
}

-- What is removed is not found.
find_ascii-removed :
    (key : Bytes) (es : List Entry) → find_ascii key (retain (λ e. not (has_key key e)) es) ≡ none
unfolding find_ascii has_key
find_ascii-removed key [] = refl
find_ascii-removed key ((k, ascii s) ∷ es) = go (str_eq k key) refl (find_ascii-removed key es)
  where
    go :
        (b : Bool)
        → str_eq k key ≡ b
        → find_ascii key (retain (λ e. not (has_key key e)) es) ≡ none
        → find_ascii key (
            if not b
            then (k, ascii s) ∷ retain (λ e. not (has_key key e)) es
            else retain (λ e. not (has_key key e)) es)
          ≡ none
    go true e ih = ih
    go false e ih = rw (find_ascii, e) ih
find_ascii-removed key ((k, binary s) ∷ es) = go (str_eq k key) (find_ascii-removed key es)
  where
    go :
        (b : Bool)
        → find_ascii key (retain (λ e. not (has_key key e)) es) ≡ none
        → find_ascii key (
            if not b
            then (k, binary s) ∷ retain (λ e. not (has_key key e)) es
            else retain (λ e. not (has_key key e)) es)
          ≡ none
    go true ih = ih
    go false ih = ih

-- What is not removed is found as before.
find_ascii-kept :
    (key other : Bytes) (es : List Entry)
    → other ≢ key
    → find_ascii key (retain (λ e. not (has_key other e)) es) ≡ find_ascii key es
unfolding find_ascii has_key
find_ascii-kept key other [] n = refl
find_ascii-kept key other ((k, ascii s) ∷ es) n =
    go (str_eq k other) refl (find_ascii-kept key other es n)
  where
    go :
        (b : Bool)
        → str_eq k other ≡ b
        → find_ascii key (retain (λ e. not (has_key other e)) es) ≡ find_ascii key es
        → find_ascii key (
            if not b
            then (k, ascii s) ∷ retain (λ e. not (has_key other e)) es
            else retain (λ e. not (has_key other e)) es)
          ≡ (if str_eq k key then some s else find_ascii key es)
    go true e ih =
        let same = str_eq→eq k other e in
        let d : str_eq k key ≡ false = str_eq-false k key (λ q. n (sym same ∙ q)) in rw d ih
    go false e ih = rw ih refl
find_ascii-kept key other ((k, binary s) ∷ es) n =
    go (str_eq k other) (find_ascii-kept key other es n)
  where
    go :
        (b : Bool)
        → find_ascii key (retain (λ e. not (has_key other e)) es) ≡ find_ascii key es
        → find_ascii key (
            if not b
            then (k, binary s) ∷ retain (λ e. not (has_key other e)) es
            else retain (λ e. not (has_key other e)) es)
          ≡ find_ascii key es
    go true ih = ih
    go false ih = ih

-- An entry behind others is found where none of them is.
find_ascii-last :
    (key : Bytes) (es : List Entry) (v : Bytes)
    → find_ascii key es ≡ none
    → find_ascii key (es ++ (key, ascii v) ∷ []) ≡ some v
unfolding find_ascii
find_ascii-last key [] v h = rw (str_eq_refl key) refl
find_ascii-last key ((k, ascii s) ∷ es) v h = go (str_eq k key) h (find_ascii-last key es v)
  where
    go :
        (b : Bool)
        → (if b then some s else find_ascii key es) ≡ none
        → (find_ascii key es ≡ none → find_ascii key (es ++ (key, ascii v) ∷ []) ≡ some v)
        → (if b then some s else find_ascii key (es ++ (key, ascii v) ∷ [])) ≡ some v
    go true e ih = cc
    go false e ih = ih e
find_ascii-last key ((k, binary s) ∷ es) v h = find_ascii-last key es v h

find_ascii-other :
    (key other : Bytes) (es : List Entry) (v : Bytes)
    → other ≢ key
    → find_ascii key (es ++ (other, ascii v) ∷ []) ≡ find_ascii key es
unfolding find_ascii
find_ascii-other key other [] v n = rw (str_eq-false other key n) refl
find_ascii-other key other ((k, ascii s) ∷ es) v n = rw (find_ascii-other key other es v n) refl
find_ascii-other key other ((k, binary s) ∷ es) v n = find_ascii-other key other es v n

pub get-remove : (md : Metadata) (key : Bytes) → get (remove md key) key ≡ none
unfolding get remove
get-remove md key = find_ascii-removed (to_ascii_lowercase key) md.entries

pub get-remove_other :
    (md : Metadata) (key other : Bytes)
    → to_ascii_lowercase other ≢ to_ascii_lowercase key
    → get (remove md other) key ≡ get md key
unfolding get remove
get-remove_other md key other n =
    find_ascii-kept (to_ascii_lowercase key) (to_ascii_lowercase other) md.entries n

-- A text that is inserted under a key is what is read under the key in any case of its letters, and
-- what is read under a key that differs by more than case is as before.
get-insert :
    (md : Metadata) (key other value : Bytes)
    → (to_ascii_lowercase other ≡ to_ascii_lowercase key
        → get (insert md key value) other ≡ some value)
      × (to_ascii_lowercase other ≢ to_ascii_lowercase key
          → get (insert md key value) other ≡ get md other)
unfolding get insert
get-insert md key other value = (
  λ e. rw e (
      find_ascii-last (to_ascii_lowercase key) _ value
        (find_ascii-removed (to_ascii_lowercase key) md.entries)),
  λ n.
      find_ascii-other (to_ascii_lowercase other) (to_ascii_lowercase key) _ value (λ q. n (sym q))
      ∙ find_ascii-kept (to_ascii_lowercase other) (to_ascii_lowercase key) md.entries
          (λ q. n (sym q)),
)
