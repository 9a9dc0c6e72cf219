-- ===== src/Runtime.antt =====
-- The configuration and the wiring of a server: rust/crates/grpc-webnext/src/lib.rs, from the public
-- configurations to the `Runtime` that the accept loop gets. Durations are in nanoseconds.
pub mod Tunnel
use grpc_webnext.Prelude.{
  ℕ, ◌*◌, ◌≡◌, List, ◌++◌, Option, none, some, Bool, true, false, Bytes, codes, str_eq,
  if◌then◌else◌, refl,
}
use grpc_webnext.Text.Decimal.{decimal}
use grpc_webnext.Transcoding.{Transcoding}
use grpc_webnext.Schema.{
  Schema, SchemaSource, no_source, from_transcoder, Built, built, not_built, build,
}

pub record ServerConfig : Type 0 where
  pub max_message_bytes : ℕ
  pub transcoder : Option Transcoding
  pub allow_implicit_codec : Bool
  ws_keepalive : Option ℕ
  ws_keepalive_timeout : ℕ

abbrev default_max : ℕ
default_max = 4194304

abbrev seconds : ℕ → ℕ
seconds n = n * 1000000000

server_default : ServerConfig
server_default = record {
  max_message_bytes = default_max;
  transcoder = none;
  allow_implicit_codec = false;
  ws_keepalive = none;
  ws_keepalive_timeout = seconds 20;
}

-- What is read of `http::Uri`: the scheme, and the text, host and port of the authority.
pub record Authority : Type 0 where
  pub text : Bytes
  pub host : Bytes
  pub port_u16 : Option ℕ

pub record Uri : Type 0 where
  pub scheme_str : Option Bytes
  pub authority : Option Authority

pub record ProxyConfig : Type 0 where
  pub upstream : Uri
  pub max_message_bytes : ℕ
  ws_keepalive : Option ℕ
  ws_keepalive_timeout : ℕ
  pub schema : SchemaSource
  reflection_ttl : ℕ
  pub admin_reload_path : Option Bytes
  pub allow_implicit_codec : Bool

proxy_default : Uri → ProxyConfig
proxy_default upstream = record {
  upstream = upstream;
  max_message_bytes = default_max;
  ws_keepalive = none;
  ws_keepalive_timeout = seconds 20;
  schema = no_source;
  reflection_ttl = seconds 14400;
  admin_reload_path = none;
  allow_implicit_codec = false;
}

pub record RunConfig : Type 0 where
  pub max_message_bytes : ℕ
  ws_keepalive : Option ℕ
  ws_keepalive_timeout : ℕ
  pub allow_implicit_codec : Bool
  pub admin_reload_path : Option Bytes
  pub upstream_authority : Option Bytes

-- `Backend`, by its kind.
pub data Backend : Type 0 where
  in_process upstream : Backend

is_upstream : Backend → Bool
is_upstream in_process = false
is_upstream upstream = true

-- `Runtime`, less the drain.
pub record Runtime : Type 0 where
  pub backend : Backend
  pub schema : Schema
  pub cfg : RunConfig

-- `serve_in_process_with_shutdown`, up to `run`.
in_process_runtime : ServerConfig → Runtime
in_process_runtime config = record {
  backend = in_process;
  schema = from_transcoder config.transcoder;
  cfg = record {
    max_message_bytes = config.max_message_bytes;
    ws_keepalive = config.ws_keepalive;
    ws_keepalive_timeout = config.ws_keepalive_timeout;
    allow_implicit_codec = config.allow_implicit_codec;
    admin_reload_path = none;
    upstream_authority = none;
  };
}

-- `config.upstream.scheme_str() == Some("https")`.
pub is_https : Option Bytes → Bool
is_https none = false
is_https (some scheme) = str_eq scheme (codes "https")

-- The raw `host:port` of the upstream.
unfoldable pub authority_text : Option Bytes → Authority → Bytes
authority_text scheme a = elim a.port_u16 [
  | some port ↦ a.text
  | none ↦ a.host ++ (codes ":" ++ decimal (if is_https scheme then 443 else 80))
]

pub upstream_authority : Uri → Option Bytes
upstream_authority uri = elim uri.authority [
  | none ↦ none
  | some a ↦ some (authority_text uri.scheme_str a)
]

-- `serve_proxy_with_shutdown`, up to `run`; a bundle that cannot be read is an error at the start.
proxy_runtime : (Bytes → Built Transcoding) → ProxyConfig → Built Runtime
proxy_runtime parse config = elim (build parse config.schema) [
  | not_built e ↦ not_built e
  | built schema ↦ built (record {
    backend = upstream;
    schema = schema;
    cfg = record {
      max_message_bytes = config.max_message_bytes;
      ws_keepalive = config.ws_keepalive;
      ws_keepalive_timeout = config.ws_keepalive_timeout;
      allow_implicit_codec = config.allow_implicit_codec;
      admin_reload_path = config.admin_reload_path;
      upstream_authority = upstream_authority config.upstream;
    };
  })
]
