-- ===== src/Reflect/Load.antt =====
-- The whole schema of an upstream (`load_all` and `list_services_driver!` of
-- rust/crates/grpc-webnext/src/reflect.rs). Every call is given by what comes in on its stream.
pub mod Whole
use grpc_webnext.Prelude.{
  List, [], ◌∷◌, ◌++◌, Option, none, some, Bytes, codes, ℕ, is_empty, if◌then◌else◌,
}
use grpc_webnext.Client.Status.{Code}
use grpc_webnext.Schema.{Built, built, not_built}
use grpc_webnext.Reflect.{Files, topo_sort, push_file_descriptor}
use grpc_webnext.Reflect.Fetch.{
  list_services, Response, services, descriptors, error_response, unexpected, Inbound, answer,
  broken, closed, Call, unreached, stream, Loaded, loaded, failed, waiting, ◌>>=◌, internal_error,
  insert_file, Wire, fetch,
}

-- `Version`.
pub data Version : Type 0 where
  v1 v1alpha : Version

-- What the upstream answers: a listing, and the files of a service.
pub record Upstream : Type 0 where
  pub listing : Version → Call
  pub exchange : Version → Bytes → Call

-- `files.extend(svc_files)`.
unfoldable pub extend : Files → Files → Files
extend files [] = files
extend files ((n, f) ∷ more) = extend (insert_file n f files) more

-- The files in one `FileDescriptorSet`.
descriptor_set : Bytes → List Bytes → Bytes
descriptor_set buf [] = buf
descriptor_set buf (raw ∷ raws) = descriptor_set (push_file_descriptor buf raw) raws

module _ (wire : Wire) where
  pub listed : Response → Loaded (List Bytes)
  listed (services names) = loaded names
  listed (error_response code message) =
      failed (record { code = wire.code_from code; message = message })
  listed (descriptors raws) =
      internal_error (codes "unexpected reflection response to list_services")
  listed unexpected = internal_error (codes "unexpected reflection response to list_services")

  first_response : List Inbound → Loaded Response
  first_response [] = waiting
  first_response (closed ∷ inbound) =
      internal_error (codes "reflection stream closed before response")
  first_response (broken s ∷ inbound) = failed s
  first_response (answer r ∷ inbound) = loaded r

  list_of : Call → Loaded (List Bytes)
  list_of (unreached s) = failed s
  list_of (stream inbound) =
      if wire.is_open list_services
      then first_response inbound >>= listed
      else internal_error (codes "reflection request channel closed")

  with_version : Version → Loaded (List Bytes) → Loaded (List Bytes × Version)
  with_version version names = names >>= λ ns. loaded (ns, version)

  -- The older version is asked where the newer one is not implemented.
  choose_version : Upstream → Loaded (List Bytes) → Loaded (List Bytes × Version)
  choose_version up (loaded names) = loaded (names, v1)
  choose_version up waiting = waiting
  choose_version up (failed s) = elim s.code [
    | Code.unimplemented ↦ with_version v1alpha (list_of (up.listing v1alpha))
    | _ ↦ failed s
  ]

  -- A service whose files cannot be fetched is skipped.
  unfoldable pub load_each : (Bytes → Call) → List Bytes → Files → Loaded Files
  load_each exchange [] files = loaded files
  load_each exchange (s ∷ ss) files = elim (fetch wire (exchange s) s) [
    | loaded w ↦ load_each exchange ss (extend files w.files)
    | failed e ↦ load_each exchange ss files
    | waiting ↦ waiting
  ]

  -- `none` is out of fuel in the sort.
  assemble : {A : Type 0} → (Bytes → Built A) → Option (List Bytes) → Option (Loaded A)
  assemble pool none = none
  assemble pool (some raws) = elim (pool (descriptor_set [] raws)) [
    | built tc ↦ some (loaded tc)
    | not_built e ↦ some (internal_error (codes "build descriptor pool: " ++ e))
  ]

  pub load_all : {A : Type 0} → (Bytes → Built A) → ℕ → Upstream → Option (Loaded A)
  load_all pool fuel up =
      let files : Loaded Files = choose_version up (list_of (up.listing v1)) >>= λ (names, version).
      load_each (up.exchange version) names [] in
      elim files [
        | failed s ↦ some (failed s)
        | waiting ↦ some waiting
        | loaded fs ↦
            if is_empty fs
            then some (
                failed (record {
                  code = Code.unavailable;
                  message = codes "upstream reflection returned no descriptors";
                }))
            else assemble pool (topo_sort fuel fs)
      ]
