-- ===== src/Metadata.antt =====
-- rust/crates/grpc-webnext/src/metadata.rs: headers, metadata, deadlines and the final status.
-- The header and metadata maps of the http and tonic crates are parameters.
pub mod Timeout
pub mod Status
pub mod Appended
use grpc_webnext.Prelude.{
  ℕ, zero, suc, ◌+◌, ◌-◌, ◌*◌, ◌/◌, ◌%◌, ◌^◌, min, Bool, true, false, not, List, [], ◌∷◌, ◌++◌,
  Option, none, some, Bytes, codes, length, take, drop, any, str_eq, leb, ltb, ◌==◌, if◌then◌else◌,
}
use grpc_webnext.Text.Decimal.{parse_uint, decimal}
use grpc_webnext.Text.Percent.{Outcome, ok, ◌>>=◌, percent_decode}
use grpc_webnext.Ws.Frame.{MetadataValue, ascii_value, bin_value, Metadatum}

abbrev pub deny : List Bytes
deny =
    codes "host"
    ∷ codes "connection"
    ∷ codes "content-length"
    ∷ codes "content-type"
    ∷ codes "keep-alive"
    ∷ codes "proxy-connection"
    ∷ codes "transfer-encoding"
    ∷ codes "te"
    ∷ codes "upgrade"
    ∷ codes "grpc-timeout"
    ∷ codes "grpc-status"
    ∷ codes "grpc-message"
    ∷ codes "grpc-status-details-bin"
    ∷ codes "grpc-encoding"
    ∷ codes "grpc-accept-encoding"
    ∷ []

-- `is_denied`, on the text of a name, and `is_denied_str`.
unfoldable pub is_denied_str : Bytes → Bool
is_denied_str key = any (λ d. str_eq d key) deny

-- `KeyAndValueRef`.
pub data KeyAndValue (V : Type 0) : Type 0 where
  ascii_entry binary_entry : Bytes → V → KeyAndValue V

-- What the code uses of `http::HeaderMap` and `tonic::metadata`.
pub record Http : Type 1 where
  pub HeaderMap : Type 0
  pub HeaderValue : Type 0
  pub MetadataMap : Type 0
  pub empty : HeaderMap
  pub get : HeaderMap → Bytes → Option HeaderValue
  pub append : HeaderMap → Bytes → HeaderValue → HeaderMap
  pub header_iter : HeaderMap → List (Bytes × HeaderValue)
  pub header_name : Bytes → Option Bytes
  pub from_str : Bytes → Option HeaderValue
  pub to_str : HeaderValue → Option Bytes
  pub to_bytes : HeaderValue → Option Bytes
  pub from_headers : HeaderMap → MetadataMap
  pub into_headers : MetadataMap → HeaderMap
  pub new_metadata : MetadataMap
  pub metadata_iter : MetadataMap → List (KeyAndValue HeaderValue)
  pub ascii_key : Bytes → Option Bytes
  pub ascii_metadata_value : Bytes → Option HeaderValue
  pub binary_key : Bytes → Option Bytes
  pub binary_metadata_value : Bytes → HeaderValue
  pub append_metadata : MetadataMap → Bytes → HeaderValue → MetadataMap
  pub append_bin : MetadataMap → Bytes → HeaderValue → MetadataMap

abbrev pub u32_max : ℕ
u32_max = 4294967295

abbrev pub u64_max : ℕ
u64_max = 18446744073709551615

-- `DEADLINE_GRACE`, in nanoseconds.
abbrev pub deadline_grace : ℕ
deadline_grace = 500000000

-- `Duration::from_secs(n.checked_mul(k)?)`, in nanoseconds.
pub checked_secs : ℕ → ℕ → Option ℕ
checked_secs n k = if leb (n * k) u64_max then some (n * k * 1000000000) else none

-- A `Duration`, in nanoseconds, for a number and its unit; `none` where the product overflows.
unfoldable pub unit_duration : Bytes → ℕ → Option ℕ
unit_duration unit' n =
    if str_eq unit' (codes "H")
    then checked_secs n 3600
    else if str_eq unit' (codes "M")
    then checked_secs n 60
    else if str_eq unit' (codes "S")
    then some (n * 1000000000)
    else if str_eq unit' (codes "m")
    then some (n * 1000000)
    else if str_eq unit' (codes "u")
    then some (n * 1000)
    else if str_eq unit' (codes "n")
    then some n
    else none

-- The value and the unit of a header.
unfoldable pub read_timeout : Bytes → Bytes → Option ℕ
read_timeout value unit' = elim (parse_uint u64_max value) [
  | none ↦ none
  | some n ↦ unit_duration unit' n
]

-- `parse_grpc_timeout` on the text of the header: the last byte is the unit.
unfoldable pub parse_timeout : Bytes → Option ℕ
parse_timeout [] = none
parse_timeout (c ∷ cs) = read_timeout (take (length cs) (c ∷ cs)) (drop (length cs) (c ∷ cs))

-- The text of `format_grpc_timeout`.
pub format_timeout : ℕ → Bytes
format_timeout d = decimal (min (d / 1000000) u64_max) ++ codes "m"

unfoldable pub grpc_timeout_from_millis : ℕ → Option ℕ
grpc_timeout_from_millis timeout_millis =
    if timeout_millis == 0 then none else some (timeout_millis * 1000000)

-- `and_then(|s| s.parse::<u32>().ok()).unwrap_or(0)`.
unfoldable pub parse_code : Option Bytes → ℕ
parse_code none = 0
parse_code (some s) = elim (parse_uint u32_max s) [ none ↦ 0 | some n ↦ n ]

module _ (http : Http) where
  open http use {HeaderMap, HeaderValue, MetadataMap}

  -- The value of a header as text.
  unfoldable pub text_of : Option HeaderValue → Option Bytes
  text_of none = none
  text_of (some v) = http.to_str v

  unfoldable pub parse_grpc_timeout : HeaderMap → Option ℕ
  parse_grpc_timeout headers = elim (text_of (http.get headers (codes "grpc-timeout"))) [
    | none ↦ none
    | some raw ↦ parse_timeout raw
  ]

  -- The headers that are not denied, behind those that are there.
  unfoldable pub keep_allowed : List (Bytes × HeaderValue) → HeaderMap → HeaderMap
  keep_allowed [] headers = headers
  keep_allowed ((name, value) ∷ rest) headers =
      keep_allowed rest (if is_denied_str name then headers else http.append headers name value)

  request_headers_to_metadata : HeaderMap → MetadataMap
  request_headers_to_metadata headers =
      http.from_headers (keep_allowed (http.header_iter headers) http.empty)

  unfoldable pub merge_metadata_into_headers : MetadataMap → HeaderMap → HeaderMap
  merge_metadata_into_headers meta headers =
      keep_allowed (http.header_iter (http.into_headers meta)) headers

  -- One entry, whose key is a header's name and not denied.
  append_value : MetadataMap → Bytes → Option MetadataValue → MetadataMap
  append_value md key none = md
  append_value md key (some (ascii_value s)) = elim (http.ascii_key key) [
    | none ↦ md
    | some k ↦ elim (http.ascii_metadata_value s) [
      | none ↦ md
      | some v ↦ http.append_metadata md k v
    ]
  ]
  append_value md key (some (bin_value b)) = elim (http.binary_key key) [
    | none ↦ md
    | some k ↦ http.append_bin md k (http.binary_metadata_value b)
  ]

  append_all : List Metadatum → MetadataMap → MetadataMap
  append_all [] md = md
  append_all (m ∷ ms) md = append_all ms (elim (http.header_name m.key) [
    | none ↦ md
    | some n ↦ if is_denied_str n then md else append_value md m.key m.value
  ])

  pub metadata_vec_to_metadata : List Metadatum → MetadataMap
  metadata_vec_to_metadata items = append_all items http.new_metadata

  -- What one entry puts into the list.
  entry_to_vec : KeyAndValue HeaderValue → List Metadatum
  entry_to_vec (ascii_entry key value) =
      if is_denied_str key then [] else elim (http.to_str value) [
        | none ↦ []
        | some s ↦ record { key = key; value = some (ascii_value s) } ∷ []
      ]
  entry_to_vec (binary_entry key value) =
      if is_denied_str key then [] else elim (http.to_bytes value) [
        | none ↦ []
        | some b ↦ record { key = key; value = some (bin_value b) } ∷ []
      ]

  entries_to_vec : List (KeyAndValue HeaderValue) → List Metadatum
  entries_to_vec [] = []
  entries_to_vec (kv ∷ kvs) = entry_to_vec kv ++ entries_to_vec kvs

  pub metadata_to_vec : MetadataMap → List Metadatum
  metadata_to_vec meta = entries_to_vec (http.metadata_iter meta)

  -- `trailers.get(name).or_else(|| headers.get(name))`, as text.
  unfoldable pub status_text : HeaderMap → HeaderMap → Bytes → Option Bytes
  status_text trailers headers name =
      text_of (elim (http.get trailers name) [ none ↦ http.get headers name | some v ↦ some v ])

  unfoldable pub read_status : HeaderMap → HeaderMap → Outcome (ℕ × Bytes)
  read_status trailers headers = do
    let code : ℕ = parse_code (status_text trailers headers (codes "grpc-status"))
    message ← elim (status_text trailers headers (codes "grpc-message")) [
      | none ↦ ok []
      | some s ↦ percent_decode s
    ]
    ok (code, message)
