-- ===== src/Metadata/Appended.antt =====
-- Header maps as what was appended to them, for metadata.rs and fetch.rs of
-- rust/crates/grpc-webnext/src and tonic_service.rs of the client.
use grpc_webnext.Prelude.{
  ◌≡◌, List, [], ◌∷◌, ◌++◌, Option, none, some, Bool, true, false, not, Bytes, retain,
  if◌then◌else◌, refl,
}
use grpc_webnext.Metadata.{Http, is_denied_str, keep_allowed}

module _ (http : Http) where
  open http use {HeaderMap, HeaderValue}

  -- The map that entries are appended to, in order.
  unfoldable pub appended : HeaderMap → List (Bytes × HeaderValue) → HeaderMap
  appended headers [] = headers
  appended headers ((name, value) ∷ entries) = appended (http.append headers name value) entries

  -- The entries whose name and value are taken, as they are taken.
  abbrev pub taken_with : Option Bytes → Option HeaderValue → List (Bytes × HeaderValue)
  taken_with (some name) (some value) = (name, value) ∷ []
  taken_with (some name) none = []
  taken_with none value = []

  unfoldable pub taken :
      (Bytes → Option Bytes)
      → (Bytes → Option HeaderValue)
      → List (Bytes × Bytes)
      → List (Bytes × HeaderValue)
  taken name_from value_from [] = []
  taken name_from value_from ((name, value) ∷ entries) =
      taken_with (name_from name) (value_from value) ++ taken name_from value_from entries

  -- The entries whose name is not denied.
  abbrev pub allowed : List (Bytes × HeaderValue) → List (Bytes × HeaderValue)
  allowed entries = retain (λ e. not (is_denied_str e.0)) entries

  pub appended-append :
      (headers : HeaderMap) (xs ys : List (Bytes × HeaderValue))
      → appended headers (xs ++ ys) ≡ appended (appended headers xs) ys
  unfolding appended
  appended-append headers [] ys = refl
  appended-append headers (x ∷ xs) ys = appended-append (http.append headers x.0 x.1) xs ys

  pub keep_allowed-appended :
      (entries : List (Bytes × HeaderValue)) (headers : HeaderMap)
      → keep_allowed http entries headers ≡ appended headers (allowed entries)
  unfolding keep_allowed appended
  keep_allowed-appended [] headers = refl
  keep_allowed-appended ((name, value) ∷ entries) headers =
      go (is_denied_str name) (keep_allowed-appended entries)
    where
      go :
          (b : Bool)
          → ((h : HeaderMap) → keep_allowed http entries h ≡ appended h (allowed entries))
          → keep_allowed http entries (if b then headers else http.append headers name value)
            ≡ appended headers (if not b then (name, value) ∷ allowed entries else allowed entries)
      go true ih = ih headers
      go false ih = ih (http.append headers name value)
