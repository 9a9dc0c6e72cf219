-- ===== src/Schema.antt =====
-- rust/crates/grpc-webnext/src/schema.rs: where the handlers get their transcoder. The snapshot of the
-- reflection is part of the state, and what a load of it yields is given.
pub mod Refresh
use grpc_webnext.Prelude.{
  ℕ, min, List, [], ◌∷◌, ◌++◌, Option, none, some, Bool, true, false, Bytes, codes, if◌then◌else◌,
}
use grpc_webnext.Client.Status.{
  Code, Status, deadline_exceeded, failed_precondition, unavailable, unimplemented,
}
use grpc_webnext.Transcoding.{Transcoding, Snapshot, current, absent}
use grpc_webnext.Fetch.Handle.{Reload, reloaded, not_reloaded}

-- `SchemaSource`.
pub data SchemaSource : Type 0 where
  no_source from_reflection : SchemaSource
  from_bundle : Bytes → SchemaSource
  reflection_or_bundle : Bytes → SchemaSource

-- `Inner`, with the snapshot of the reflection where it has one.
pub data Schema : Type 0 where
  unset : Schema
  bundled : Transcoding → Schema
  reflected : Option Transcoding → Schema
  reflected_or_bundled : Option Transcoding → Transcoding → Schema

-- What `reflect::load_all` comes to under its time limit.
pub data Load : Type 0 where
  loaded : Transcoding → Load
  load_failed : Status → Load
  load_timed_out : Load

-- A `Result` of two types.
pub data Built (A : Type 0) : Type 0 where
  built : A → Built A
  not_built : Bytes → Built A

pub from_transcoder : Option Transcoding → Schema
from_transcoder none = unset
from_transcoder (some tc) = bundled tc

build_bundled : (Transcoding → Schema) → Built Transcoding → Built Schema
build_bundled f (built tc) = built (f tc)
build_bundled f (not_built e) = not_built e

-- `Schema::build`, with `Transcoder::from_file_descriptor_set`.
pub build : (Bytes → Built Transcoding) → SchemaSource → Built Schema
build parse no_source = built unset
build parse (from_bundle set) = build_bundled (λ tc. bundled tc) (parse set)
build parse from_reflection = built (reflected none)
build parse (reflection_or_bundle set) =
    build_bundled (λ tc. reflected_or_bundled none tc) (parse set)

-- `load_and_swap`: the snapshot is replaced by a load that succeeds only.
pub swap : Option Transcoding → Load → Option Transcoding
swap before (loaded tc) = some tc
swap before failure = before

pub load_result : Load → Reload
load_result (loaded tc) = reloaded
load_result (load_failed status) = not_reloaded status
load_result load_timed_out =
    not_reloaded
      (record { code = deadline_exceeded; message = codes "upstream reflection load timed out" })

pub refused_reload : Bytes → Reload
refused_reload why = not_reloaded (record { code = failed_precondition; message = why })

-- `reload`, the hook of the reload path.
pub reload : Schema → Load → Schema × Reload
unfolding swap
reload unset load = (unset, refused_reload (codes "no descriptor source to reload"))
reload (bundled tc) load =
    (bundled tc, refused_reload (codes "bundled descriptors are static; nothing to reload"))
reload (reflected snapshot) load = (reflected (swap snapshot load), load_result load)
reload (reflected_or_bundled snapshot bundle) load =
    (reflected_or_bundled (swap snapshot load) bundle, load_result load)

-- `RETRY_INTERVAL`, in nanoseconds.
abbrev pub retry_interval : ℕ
retry_interval = 30000000000

-- How long `refresh_loop` sleeps behind a load.
refresh_wait : ℕ → Load → ℕ
refresh_wait ttl (loaded tc) = ttl
refresh_wait ttl failure = min retry_interval ttl

-- `refresh_loop`, by the loads it makes.
pub refresh : Option Transcoding → List Load → Option Transcoding
unfolding swap
refresh snapshot [] = snapshot
refresh snapshot (load ∷ loads) = refresh (swap snapshot load) loads

enabled : Schema → Bool
enabled unset = false
enabled schema = true

-- `ReflectionState::transcoder`: the first snapshot there is, of those that come in time.
pub first_snapshot : List (Option Transcoding) → Snapshot
first_snapshot [] = absent unavailable (codes "descriptors not yet loaded from upstream reflection")
first_snapshot (some tc ∷ later) = current tc
first_snapshot (none ∷ later) = first_snapshot later

-- `transcoder_any`, with the changes of the snapshot that a first request waits for.
pub transcoder_any : Schema → List (Option Transcoding) → Snapshot
unfolding first_snapshot
transcoder_any unset changes = absent unimplemented (
    codes
      "no +json transcoder configured (pass a transcoder in-process, or enable upstream reflection / bundle a descriptor set on the proxy)")
transcoder_any (bundled tc) changes = current tc
transcoder_any (reflected snapshot) changes = first_snapshot (snapshot ∷ changes)
transcoder_any (reflected_or_bundled (some tc) bundle) changes = current tc
transcoder_any (reflected_or_bundled none bundle) changes = current bundle

-- What a method path makes of it.
known_method : Snapshot → Bytes → Snapshot
known_method (absent code message) path = absent code message
known_method (current tc) path =
    if tc.has_method path
    then current tc
    else absent unimplemented (codes "no descriptor for method " ++ path)

-- `Schema::transcoder`.
method_transcoder : Schema → List (Option Transcoding) → Bytes → Snapshot
method_transcoder schema changes path = known_method (transcoder_any schema changes) path
