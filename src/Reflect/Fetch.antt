-- ===== src/Reflect/Fetch.antt =====
-- The exchange with a reflection service (`reflection_driver!` and `file_meta` of
-- rust/crates/grpc-webnext/src/reflect.rs). The two versions of the protocol share
-- their messages. A call is what comes in on its stream, in order.

pub mod Missing
pub mod Asked
pub mod Notes
pub mod Closed
use grpc_webnext.Prelude.{
  ℕ, ◌+◌, ◌-◌, List, [], ◌∷◌, ◌++◌, Option, none, some, Bool, true, false, not, ◌&&◌, Bytes, codes,
  any, map, is_empty, str_eq, ◌==◌, if◌then◌else◌,
}
use grpc_webnext.Client.Status.{Code, Status}
use grpc_webnext.Text.Signed.{ℤ}
use grpc_webnext.Reflect.{RawFile, Files, topo_sort, push_file_descriptor}

-- `MessageRequest`, as far as it is used.
pub data Request : Type 0 where
  file_containing_symbol : Bytes → Request
  file_by_filename : Bytes → Request
  list_services : Request

-- `message_response`; `unexpected` is any other, or none.
pub data Response : Type 0 where
  descriptors : List Bytes → Response
  services : List Bytes → Response
  error_response : ℤ → Bytes → Response
  unexpected : Response

-- `inbound.message().await`.
pub data Inbound : Type 0 where
  answer : Response → Inbound
  broken : Status → Inbound
  closed : Inbound

-- `server_reflection_info(..).await`.
pub data Call : Type 0 where
  unreached : Status → Call
  stream : List Inbound → Call

-- `Result<A, Status>`; `waiting` is a call whose answer has not come.
pub data Loaded {ℓ} (A : Type ℓ) : Type ℓ where
  loaded : A → Loaded A
  failed : Status → Loaded A
  waiting : Loaded A

infixl 5 ◌>>=◌
abbrev pub ◌>>=◌ {ℓ κ} : {A : Type ℓ} {B : Type κ} → Loaded A → (A → Loaded B) → Loaded B
loaded a >>= f = f a
failed s >>= f = failed s
waiting >>= f = waiting

abbrev pub internal_error {ℓ} : {A : Type ℓ} → Bytes → Loaded A
internal_error text = failed (record { code = Code.internal; message = text })

-- `FileDescriptorProto::decode`, with what `file_meta` takes from it.
pub data Decoded : Type 0 where
  parsed : Bytes → List Bytes → Decoded
  malformed : Bytes → Decoded

-- `files.contains_key(name)`.
unfoldable pub contains_key : Files → Bytes → Bool
contains_key files name = any (λ n. str_eq n name) (map (λ f. f.0) files)

-- `files.insert(name, file)`.
unfoldable pub insert_file : Bytes → RawFile → Files → Files
insert_file name file [] = (name, file) ∷ []
insert_file name file ((n, f) ∷ fs) =
    let rest = insert_file name file fs in
    if str_eq n name then (name, file) ∷ fs else (n, f) ∷ rest

-- The driver between two messages, with the requests that it has sent.
pub record Walk : Type 0 where
  pub files : Files
  pub requested : List Bytes
  pub pending : ℕ
  pub sent : List Request

-- What is used of prost, tonic and the channel of the requests.
pub record Wire : Type 0 where
  pub decode : Bytes → Decoded
  pub code_from : ℤ → Code
  pub is_open : Request → Bool

module _ (wire : Wire) where
  file_meta : Bytes → Loaded (Bytes × List Bytes)
  file_meta bytes = elim (wire.decode bytes) [
    | parsed name deps ↦ loaded (name, deps)
    | malformed e ↦ internal_error (codes "bad descriptor: " ++ e)
  ]

  send : Request → Walk → Loaded Walk
  send q w =
      if wire.is_open q
      then loaded (record w { sent = w.sent ++ q ∷ [] })
      else internal_error (codes "reflection request channel closed")

  unfoldable pub note_dep : Bytes → Walk → Loaded Walk
  unfolding send
  note_dep dep w =
      if not (contains_key w.files dep) && not (any (λ n. str_eq n dep) w.requested)
      then (send (file_by_filename dep) (record w { requested = dep ∷ w.requested }) >>= λ w'.
          loaded (record w' { pending = w'.pending + 1 }))
      else loaded w

  unfoldable pub note_deps : List Bytes → Walk → Loaded Walk
  unfolding note_dep
  note_deps [] w = loaded w
  note_deps (dep ∷ deps) w = note_dep dep w >>= λ w'. note_deps deps w'

  unfoldable pub note_file : Bytes → Walk → Loaded Walk
  unfolding file_meta note_deps
  note_file raw w = file_meta raw >>= λ m. note_deps m.1 w >>= λ w'.
      loaded (record w' { files = insert_file m.0 (record { bytes = raw; deps = m.1 }) w'.files })

  unfoldable pub note_files : List Bytes → Walk → Loaded Walk
  unfolding note_file
  note_files [] w = loaded w
  note_files (raw ∷ raws) w = note_file raw w >>= λ w'. note_files raws w'

  unfoldable pub on_response : Response → Walk → Loaded Walk
  unfolding note_files
  on_response (descriptors raws) w = note_files raws w
  on_response (error_response code message) w =
      failed (record { code = wire.code_from code; message = message })
  on_response (services names) w = loaded w
  on_response unexpected w = loaded w

  -- `while pending > 0`.
  unfoldable pub fetch_loop : List Inbound → Walk → Loaded Walk
  unfolding on_response
  fetch_loop [] w = if w.pending == 0 then loaded w else waiting
  fetch_loop (closed ∷ inbound) w = loaded w
  fetch_loop (broken s ∷ inbound) w = if w.pending == 0 then loaded w else failed s
  fetch_loop (answer r ∷ inbound) w =
      let rest : Loaded Walk =
        on_response r (record w { pending = w.pending - 1 }) >>= λ w'. fetch_loop inbound w' in
      if w.pending == 0 then loaded w else rest

  unfoldable pub fetch : Call → Bytes → Loaded Walk
  unfolding fetch_loop send
  fetch (unreached s) symbol = failed s
  fetch (stream inbound) symbol =
      send (file_containing_symbol symbol)
        (record { files = []; requested = []; pending = 1; sent = [] })
      >>= λ w. fetch_loop inbound w
