-- ===== src/Client/Metadata.antt =====
-- rust/crates/grpc-webnext-client/src/metadata.rs: the metadata of a call, in the order of its
-- entries. The base64 crate is a parameter, and a `HashMap` of headers is the list of its entries in
-- the order in which it gives them.
pub mod Laws
use grpc_webnext.Prelude.{
  str_leb, ℕ, ◌+◌, ◌<◌, List, [], ◌∷◌, ◌++◌, Option, none, some, Bool, true, false, not, ◌||◌, ◌==◌,
  Bytes, codes, str_eq, ltb, any, map, length, drop, starts_with, ends_with, retain, if◌then◌else◌,
}
use grpc_webnext.Text.Str.{to_ascii_lowercase}

pub data MetadataValue : Type 0 where
  ascii binary : Bytes → MetadataValue

abbrev pub Entry : Type 0
Entry = Bytes × MetadataValue

-- `Metadata`, by its entries.
pub record Metadata : Type 0 where
  pub entries : List Entry

abbrev pub new : Metadata
new = record { entries = [] }

pub has_key : Bytes → Entry → Bool
has_key key e = str_eq e.0 key

pub remove : Metadata → Bytes → Metadata
remove md key = record {
  entries = retain (λ e. not (has_key (to_ascii_lowercase key) e)) md.entries;
}

pub insert : Metadata → Bytes → Bytes → Metadata
unfolding remove
insert md key value = record {
  entries = (remove md key).entries ++ (to_ascii_lowercase key, ascii value) ∷ [];
}

unfoldable pub insert_bin : Metadata → Bytes → Bytes → Metadata
unfolding remove
insert_bin md key value = record {
  entries = (remove md key).entries ++ (to_ascii_lowercase key, binary value) ∷ [];
}

unfoldable pub append : Metadata → Bytes → Bytes → Metadata
append md key value = record { entries = md.entries ++ (to_ascii_lowercase key, ascii value) ∷ [] }

-- The first value of a kind under a key.
pub find_ascii : Bytes → List Entry → Option Bytes
find_ascii key [] = none
find_ascii key ((k, ascii s) ∷ es) =
    let rest = find_ascii key es in if str_eq k key then some s else rest
find_ascii key ((k, binary b) ∷ es) = find_ascii key es

pub find_binary : Bytes → List Entry → Option Bytes
find_binary key [] = none
find_binary key ((k, ascii s) ∷ es) = find_binary key es
find_binary key ((k, binary b) ∷ es) =
    let rest = find_binary key es in if str_eq k key then some b else rest

unfoldable pub get : Metadata → Bytes → Option Bytes
get md key = find_ascii (to_ascii_lowercase key) md.entries

unfoldable pub get_bin : Metadata → Bytes → Option Bytes
get_bin md key = find_binary (to_ascii_lowercase key) md.entries

-- `STANDARD.encode`, `STANDARD.decode` and `STANDARD_NO_PAD.decode`.
pub record Base64 : Type 0 where
  pub encode : Bytes → Bytes
  pub decode : Bytes → Option Bytes
  pub decode_no_pad : Bytes → Option Bytes

abbrev pub framing_headers : List Bytes
framing_headers =
    codes "content-type"
    ∷ codes "content-length"
    ∷ codes "te"
    ∷ codes "grpc-encoding"
    ∷ codes "grpc-accept-encoding"
    ∷ codes "grpc-timeout"
    ∷ codes "user-agent"
    ∷ codes "date"
    ∷ codes "trailer"
    ∷ []

is_framing_header : Bytes → Bool
is_framing_header key = any (λ h. str_eq key h) framing_headers

-- `sort_by`, which is stable.
insert_sorted : Entry → List Entry → List Entry
insert_sorted e [] = e ∷ []
insert_sorted e (f ∷ fs) =
    let rest = insert_sorted e fs in if str_leb e.0 f.0 then e ∷ f ∷ fs else f ∷ rest

sort_by_key : List Entry → List Entry
sort_by_key [] = []
sort_by_key (e ∷ es) = insert_sorted e (sort_by_key es)

module _ (base64 : Base64) where
  -- One entry as a header.
  header_of : Entry → Bytes × Bytes
  header_of (k, ascii s) = (k, s)
  header_of (k, binary b) = (k, base64.encode b)

  pub to_headers : Metadata → List (Bytes × Bytes)
  to_headers md = map header_of md.entries

  -- The value of a key that ends in `-bin`.
  binary_or_ascii : Bytes → MetadataValue
  binary_or_ascii value = elim (base64.decode value) [
    | some b ↦ binary b
    | none ↦ elim (base64.decode_no_pad value) [ some b ↦ binary b | none ↦ ascii value ]
  ]

  -- The entry of one header, by its key in lower case.
  entry_of : Bytes → Bytes → List Entry
  entry_of key value =
      if starts_with key (codes ":") || is_framing_header key
      then []
      else (key, if ends_with key (codes "-bin") then binary_or_ascii value else ascii value) ∷ []

  entries_of : List (Bytes × Bytes) → List Entry
  entries_of [] = []
  entries_of ((key, value) ∷ hs) = entry_of (to_ascii_lowercase key) value ++ entries_of hs

  pub from_headers : List (Bytes × Bytes) → Metadata
  from_headers headers = record { entries = sort_by_key (entries_of headers) }
