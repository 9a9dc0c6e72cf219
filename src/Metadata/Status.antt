-- ===== src/Metadata/Status.antt =====
-- What `read_status` and `metadata_to_vec` of rust/crates/grpc-webnext/src/metadata.rs give.
use grpc_webnext.Prelude.{
  ℕ, ◌≤◌, ◌≡◌, ◌≢◌, Bool, true, false, List, [], ◌∷◌, Option, none, some, Bytes, codes, All,
  All-append, if◌then◌else◌, refl, sym, ap,
}
use grpc_webnext.Text.Utf8.{IsScalar, utf8}
use grpc_webnext.Text.Decimal.{decimal}
use grpc_webnext.Text.Decimal.RoundTrip.{parse_uint-decimal}
use grpc_webnext.Text.Percent.{Outcome, ok, panic, percent_decode, percent_encode}
use grpc_webnext.Text.Percent.RoundTrip.{percent_decode-percent_encode}
use grpc_webnext.Text.Percent.Faults.{IsAscii, percent_decode-ne-panic}
use grpc_webnext.Ws.Frame.{ascii_value, bin_value, Metadatum}
use grpc_webnext.Metadata.{
  Http, KeyAndValue, ascii_entry, binary_entry, is_denied_str, u32_max, text_of, entry_to_vec,
  entries_to_vec, metadata_to_vec, status_text, parse_code, read_status,
}

module _ (http : Http) where
  open http use {HeaderMap, HeaderValue, MetadataMap}

  Allowed : Metadatum → Type 0
  Allowed m = is_denied_str m.key ≡ false

  entry_to_vec-Allowed : (kv : KeyAndValue HeaderValue) → All Allowed (entry_to_vec http kv)
  unfolding entry_to_vec Allowed
  entry_to_vec-Allowed (ascii_entry key value) = go (is_denied_str key) refl (http.to_str value)
    where
      go :
          (b : Bool)
          → is_denied_str key ≡ b
          → (o : Option Bytes)
          → All
              (λ (m : Metadatum). is_denied_str m.key ≡ false)
              (if b then [] else elim o [
                | none ↦ []
                | some s ↦ record { key = key; value = some (ascii_value s) } ∷ []
              ])
      go true e o = tt
      go false e none = tt
      go false e (some s) = (e, tt)
  entry_to_vec-Allowed (binary_entry key value) = go (is_denied_str key) refl (http.to_bytes value)
    where
      go :
          (b : Bool)
          → is_denied_str key ≡ b
          → (o : Option Bytes)
          → All
              (λ (m : Metadatum). is_denied_str m.key ≡ false)
              (if b then [] else elim o [
                | none ↦ []
                | some s ↦ record { key = key; value = some (bin_value s) } ∷ []
              ])
      go true e o = tt
      go false e none = tt
      go false e (some s) = (e, tt)

  entries_to_vec-Allowed :
      (kvs : List (KeyAndValue HeaderValue)) → All Allowed (entries_to_vec http kvs)
  unfolding entries_to_vec
  entries_to_vec-Allowed [] = tt
  entries_to_vec-Allowed (kv ∷ kvs) =
      All-append Allowed (entry_to_vec http kv) _ (entry_to_vec-Allowed kv)
        (entries_to_vec-Allowed kvs)

  -- For every metadata map, no entry of the list that goes into a frame has a denied key.
  metadata_to_vec-allowed :
      (meta : MetadataMap)
      → All (λ (m : Metadatum). is_denied_str m.key ≡ false) (metadata_to_vec http meta)
  unfolding metadata_to_vec Allowed
  metadata_to_vec-allowed meta = entries_to_vec-Allowed (http.metadata_iter meta)

  -- If the trailers hold a status number that fits 32 bits, in decimal, and the percent-encoding of
  -- a text as its message, then this number and text are the status that is read, whatever the
  -- headers hold.
  read_status-trailers :
      (trailers headers : HeaderMap) (n : ℕ) (cs : List ℕ) (code message : HeaderValue)
      → n ≤ u32_max
      → All IsScalar cs
      → http.get trailers (codes "grpc-status") ≡ some code
      → http.to_str code ≡ some (decimal n)
      → http.get trailers (codes "grpc-message") ≡ some message
      → http.to_str message ≡ some (percent_encode (utf8 cs))
      → read_status http trailers headers ≡ ok (n, utf8 cs)
  unfolding read_status status_text text_of parse_code
  read_status-trailers trailers headers n cs code message hn hcs ec es em et =
      rw (ec, em)
        (rw (
          text_of,
          es,
          et,
          parse_code,
          parse_uint-decimal u32_max n hn,
          percent_decode-percent_encode cs hcs,
        ))

  status_text-headers :
      (trailers headers : HeaderMap) (name : Bytes)
      → http.get trailers name ≡ none
      → status_text http trailers headers name ≡ status_text http headers headers name
  unfolding status_text
  status_text-headers trailers headers name e =
      rw e (ap (text_of http) (sym (go (http.get headers name) refl)))
    where
      go :
          (o : Option HeaderValue)
          → http.get headers name ≡ o
          → elim o [ none ↦ http.get headers name | some v ↦ some v ] ≡ o
      go none e' = e'
      go (some v) e' = refl

  -- If the trailers hold neither a status nor a message, then the status is read from the headers,
  -- as if these were the trailers.
  read_status-headers :
      (trailers headers : HeaderMap)
      → http.get trailers (codes "grpc-status") ≡ none
      → http.get trailers (codes "grpc-message") ≡ none
      → read_status http trailers headers ≡ read_status http headers headers
  unfolding read_status
  read_status-headers trailers headers es em =
      rw (status_text-headers trailers headers _ es, status_text-headers trailers headers _ em)

  -- `HeaderValue::to_str` gives text only where all of it is ASCII.
  unfoldable pub AsciiText : Type 0
  AsciiText = (v : HeaderValue) (s : Bytes) → http.to_str v ≡ some s → All IsAscii s

  text_of-Ascii :
      AsciiText → (o : Option HeaderValue) (s : Bytes) → text_of http o ≡ some s → All IsAscii s
  unfolding text_of AsciiText
  text_of-Ascii law none s e = cc
  text_of-Ascii law (some v) s e = law v s e

  decoded :
      (o : Option Bytes)
      → ((s : Bytes) → o ≡ some s → All IsAscii s)
      → (m : Bytes) × (elim o [ none ↦ ok [] | some s ↦ percent_decode s ] ≡ ok m)
  decoded none h = ([], refl)
  decoded (some s) h = go (percent_decode s) (percent_decode-ne-panic s (h s refl))
    where
      go : (m : Outcome Bytes) → m ≢ panic → (r : Bytes) × (m ≡ ok r)
      go (ok m) n = (m, refl)
      go panic n = absurd (n refl)

  -- If header values are read as text only where they are ASCII, then a status is read, whatever the
  -- trailers and the headers hold.
  pub read_status-ok :
      AsciiText
      → (trailers headers : HeaderMap)
      → (r : ℕ × Bytes) × (read_status http trailers headers ≡ ok r)
  unfolding read_status status_text
  read_status-ok law trailers headers =
      let (m, e) =
        decoded (status_text http trailers headers (codes "grpc-message")) (text_of-Ascii law _) in
      ((parse_code (status_text http trailers headers (codes "grpc-status")), m), rw e)
