-- ===== src/Examples/Headers.antt =====
-- A small header map: its entries in order, and values that are text where they are ASCII.
use grpc_webnext.Prelude.{
  ◌≡◌, Bool, true, false, List, [], ◌∷◌, ◌++◌, Option, none, some, Bytes, All, refl, ltb, ltb→lt,
  ◌&&◌, str_eq, if◌then◌else◌, map, subst,
}
use grpc_webnext.Text.Percent.Faults.{IsAscii}
use grpc_webnext.Metadata.{Http, ascii_entry}
use grpc_webnext.Metadata.Status.{AsciiText}

abbrev pub Entries : Type 0
Entries = List (Bytes × Bytes)

abbrev pub look_up : Entries → Bytes → Option Bytes
look_up [] name = none
look_up ((k, v) ∷ es) name = let later = look_up es name in if str_eq k name then some v else later

abbrev pub ascii : Bytes → Bool
ascii [] = true
ascii (b ∷ s) = ltb b 128 && ascii s

abbrev pub ascii_text : Bytes → Option Bytes
ascii_text s = if ascii s then some s else none

abbrev pub small_http : Http
small_http = record {
  HeaderMap = Entries;
  HeaderValue = Bytes;
  MetadataMap = Entries;
  empty = [];
  get = look_up;
  append = λ h k v. h ++ (k, v) ∷ [];
  header_iter = λ h. h;
  header_name = λ k. some k;
  from_str = ascii_text;
  to_str = ascii_text;
  to_bytes = λ v. some v;
  from_headers = λ h. h;
  into_headers = λ m. m;
  new_metadata = [];
  metadata_iter = λ m. map (λ e. ascii_entry e.0 e.1) m;
  ascii_key = λ k. some k;
  ascii_metadata_value = λ v. some v;
  binary_key = λ k. none;
  binary_metadata_value = λ b. b;
  append_metadata = λ m k v. m ++ (k, v) ∷ [];
  append_bin = λ m k v. m ++ (k, v) ∷ [];
}

ascii-All : (s : Bytes) → ascii s ≡ true → All IsAscii s
ascii-All [] e = tt
ascii-All (b ∷ s) e = go (ltb b 128) refl e (ascii-All s)
  where
    go :
        (t : Bool)
        → ltb b 128 ≡ t
        → t && ascii s ≡ true
        → (ascii s ≡ true → All IsAscii s)
        → IsAscii b × All IsAscii s
    go true lt e' ih = (ltb→lt b 128 lt, ih e')
    go false lt e' ih = cc

pub small_http-AsciiText : AsciiText small_http
unfolding AsciiText
small_http-AsciiText v s e = go (ascii v) refl e
  where
    go : (t : Bool) → ascii v ≡ t → (if t then some v else none) ≡ some s → All IsAscii s
    go true a e' = let eq : v ≡ s = cc in subst (All IsAscii) eq (ascii-All v a)
    go false a e' = cc
