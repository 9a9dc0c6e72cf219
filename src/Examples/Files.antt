-- ===== src/Examples/Files.antt =====
-- Descriptor files and request messages at concrete inputs.
use grpc_webnext.Prelude.{
  ℕ, ◌+◌, ◌≤◌, length, ◌<◌, ◌≡◌, ◌≢◌, List, [], ◌∷◌, ◌++◌, none, some, Bool, true, false, Bytes,
  codes, map, flatten, All, str_eq, if◌then◌else◌, refl, subst, arith,
}
use grpc_webnext.Text.Percent.{percent_decode, decode_loop, escape}
use grpc_webnext.Text.Utf8.{from_utf8_lossy}
use grpc_webnext.Text.Str.{split, split_once}
use grpc_webnext.HttpRule.Match.{PathVar}
use grpc_webnext.HttpRule.Template.{nil}
use grpc_webnext.HttpRule.Router.{Binding, no_body}
use grpc_webnext.HttpRule.Message.{bound, refused, string, uint32, Reflection, field_by_any_name}
use grpc_webnext.HttpRule.Message.Written.{Written}
use grpc_webnext.HttpRule.Build.{
  build_message, parse_query, decode_pairs, decode_pair, decode_query, plus_to_space, or_fault,
}
use grpc_webnext.HttpRule.Build.Precedence.{build_message-names}
use grpc_webnext.Reflect.{RawFile, Files, look_up, Visit, sorted_files}
use grpc_webnext.Reflect.Names.{Among, names}
use grpc_webnext.Reflect.Fetch.{
  Request, file_containing_symbol, file_by_filename, list_services, Response, descriptors,
  unexpected, Call, stream, answer, parsed, loaded, Walk, Wire, fetch, fetch_loop, on_response,
  note_files, note_file, note_deps, note_dep, contains_key, insert_file,
}
use grpc_webnext.Reflect.Fetch.Notes.{Readable, names_of}
use grpc_webnext.Reflect.Fetch.Closed.{Closed, Reflects, fetch-Closed}
use grpc_webnext.Reflect.Load.{extend, load_each}
use grpc_webnext.Reflect.Load.Whole.{Complete, load_each-Complete}
use grpc_webnext.Client.Status.{Code}

abbrev file_b : RawFile
file_b = record { bytes = codes "B"; deps = codes "a" ∷ [] }

abbrev file_a : RawFile
file_a = record { bytes = codes "A"; deps = [] }

abbrev two_files : Files
two_files = (codes "b", file_b) ∷ (codes "a", file_a) ∷ []

abbrev rank : Bytes → ℕ
rank n = if str_eq (codes "b") n then 1 else 0

rank_bound : (n : Bytes) → rank n < 2
rank_bound n = go (str_eq (codes "b") n)
  where
    go : (b : Bool) → (if b then 1 else 0) < 2
    go true = omega arith
    go false = omega arith

two_files_acyclic :
    (n : Bytes) (f : RawFile) → look_up two_files n ≡ some f → All (λ d. rank d < rank n) f.deps
unfolding look_up
two_files_acyclic n f e = go (str_eq (codes "b") n) (str_eq (codes "a") n) e
  where
    go :
        (b a : Bool)
        → (if b then some file_b else if a then some file_a else none) ≡ some f
        → All (λ d. rank d < (if b then 1 else 0)) f.deps
    go true a q =
        let s : file_b ≡ f = cc in
        subst (λ (g : RawFile). All (λ d. rank d < 1) g.deps) s (omega arith, tt)
    go false true q =
        let s : file_a ≡ f = cc in subst (λ (g : RawFile). All (λ d. rank d < 0) g.deps) s tt
    go false false q = cc

-- Two descriptors, and a service that answers for their files.
abbrev wire : Wire
wire = record {
  decode = λ raw.
      if str_eq raw (codes "B") then parsed (codes "b") (codes "a" ∷ []) else parsed (codes "a") [];
  code_from = λ n. Code.unknown;
  is_open = λ q. true;
}

abbrev known_names : List Bytes
known_names = codes "a" ∷ []

abbrev serve : Request → Response
serve (file_containing_symbol symbol) = descriptors (codes "B" ∷ [])
serve (file_by_filename name) = descriptors (codes "A" ∷ [])
serve list_services = unexpected

abbrev read_a : Readable wire known_names (codes "A")
read_a = record { name = codes "a"; deps = []; reads = refl; known = tt }

abbrev read_b : Readable wire known_names (codes "B")
read_b = record {
  name = codes "b";
  deps = codes "a" ∷ [];
  reads = refl;
  known = (Among.here [], tt);
}

offered :
    (d : Bytes)
    → Among d known_names
    → Among d (names_of wire known_names (codes "A" ∷ []) (read_a, tt))
unfolding names_of
offered d (Among.here _) = Among.here []
offered d (Among.there _ _ h) = elim h [ ]

abbrev reflects : Reflects wire known_names (codes "s.S") serve
unfolding offered
reflects = record {
  opened = λ q. refl;
  root = record { raws = codes "B" ∷ []; answers = refl; readable = (read_b, tt) };
  offer = λ d k. record { raws = codes "A" ∷ []; answers = refl; readable = (read_a, tt) };
  named = offered;
}

fetch-Closed_example :
    (w : Walk) × (fetch wire (stream (map (λ q. answer (serve q)) w.sent)) (codes "s.S") ≡ loaded w)
    × (length w.sent ≤ length known_names + 1)
    × ((n : Bytes)
        → Among n (names_of wire known_names reflects.root.raws reflects.root.readable)
        → Among n (names w.files))
    × Closed w.files
fetch-Closed_example = fetch-Closed wire known_names (codes "s.S") serve reflects

abbrev exchange : Bytes → Call
exchange symbol =
    stream (answer (descriptors (codes "B" ∷ [])) ∷ answer (descriptors (codes "A" ∷ [])) ∷ [])

abbrev walked : Bytes → Walk
walked symbol = record {
  files = two_files;
  requested = codes "a" ∷ [];
  pending = 0;
  sent = file_containing_symbol symbol ∷ file_by_filename (codes "a") ∷ [];
}

exchange_whole : (s : Bytes) (w : Walk) → fetch wire (exchange s) s ≡ loaded w → Closed w.files
unfolding fetch fetch_loop on_response note_files note_file note_deps note_dep contains_key
    insert_file Closed
exchange_whole s w e =
    let same : walked s ≡ w = cc in
    subst (λ (v : Walk). Closed v.files) same ((Among.there _ _ (Among.here []), tt), (tt, tt))

load_each-Complete_example :
    (st : Visit) × (sorted_files 2 two_files ≡ some st)
    × Complete st.out
    × ((n : Bytes) → look_up two_files n ≢ none → Among n (names st.out))
unfolding load_each fetch fetch_loop on_response note_files note_file note_deps note_dep
    contains_key insert_file extend
load_each-Complete_example =
    load_each-Complete wire exchange (codes "s.S" ∷ codes "t.T" ∷ []) two_files exchange_whole refl
      rank 2 rank_bound two_files_acyclic

abbrev Pairs : Type 0
Pairs = List (Bytes × Bytes)

-- Messages of one text field with two names, as the list of what was set.
abbrev texts_only : Reflection
texts_only = record {
  Message = Pairs;
  Descriptor = Unit;
  Field = Bytes;
  Enum = Bytes;
  Value = Bytes;
  new = λ d. [];
  descriptor = λ m. tt;
  full_name = λ d. [];
  get_field_by_name = λ d n. if str_eq n (codes "item_id") then some n else none;
  get_field_by_json_name =
      λ d n. if str_eq n (codes "itemId") then some (codes "item_id") else none;
  name = λ f. f;
  json_name = λ f. f;
  kind = λ f. string;
  is_list = λ f. false;
  is_map = λ f. false;
  enum_number = λ e n. none;
  deserialize = λ d json. refused [];
  encode_to_vec = λ m. flatten (map (λ e. e.0 ++ e.1) m);
  get_field = λ m f. [];
  set_field = λ m f v. m ++ (f, v) ∷ [];
  push_to_list = λ m f v. m ++ (f, v) ∷ [];
  as_message = λ m f. none;
  set_message = λ m f s. m;
  string_value = λ s. s;
  bool_value = λ b. [];
  i32_value = λ n. [];
  i64_value = λ n. [];
  u32_value = λ n. [];
  u64_value = λ n. [];
  enum_value = λ n. [];
  parse_f32 = λ s. none;
  parse_f64 = λ s. none;
  json_string = λ s. s;
  is_utf8 = λ s. true;
  debug = λ s. s;
}

abbrev get_item : Binding
get_item = record {
  http_method = codes "GET";
  segments = nil;
  custom_verb = [];
  body = no_body;
  response_body = [];
  grpc_method = codes "/s.S/Get";
}

abbrev by_id : List PathVar
by_id = (codes "item_id" ∷ [], codes "5") ∷ []

-- A field of unsigned numbers.
abbrev numbers_only : Reflection
numbers_only = record texts_only { kind = λ f. uint32; u32_value = λ n. n ∷ [] }

build_message-names_example :
    (build_message texts_only get_item tt by_id (some (codes "item_id=6")) []
      ≡ bound (codes "item_id5"))
    × (build_message texts_only get_item tt by_id (some (codes "itemId=6")) []
        ≡ bound (codes "item_id5item_id6"))
unfolding parse_query decode_pairs decode_pair decode_query plus_to_space or_fault split split_once
    percent_decode decode_loop from_utf8_lossy field_by_any_name escape
build_message-names_example =
    build_message-names texts_only (λ d. refl) (λ m f v. refl) get_item tt (codes "item_id")
      (codes "item_id") (codes "itemId") (codes "5") (codes "6") [] (codes "item_id=6")
      (codes "itemId=6") refl refl refl refl refl refl refl refl refl refl
