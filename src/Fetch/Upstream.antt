-- ===== src/Fetch/Upstream.antt =====
-- The request that the handlers of rust/crates/grpc-webnext/src/fetch.rs pass to the backend.
use grpc_webnext.Prelude.{ℕ, ◌+◌, ◌/◌, Option, none, some, codes, leb, if◌then◌else◌}
use grpc_webnext.Text.Percent.{Outcome, ok, panic, ◌>>=◌}
use grpc_webnext.Backend.{PathAndQuery}
use grpc_webnext.Metadata.{deadline_grace, Http, keep_allowed, format_timeout, u64_max}
use grpc_webnext.Fetch.Response.{Body, ct_grpc, put}

pub record Upstream (H : Type 0) : Type 0 where
  pub path : PathAndQuery
  pub headers : H
  pub body : Body

-- `d + DEADLINE_GRACE`: the sum of two durations panics where its seconds do not fit 64 bits.
unfoldable pub add_grace : ℕ → Outcome ℕ
add_grace d =
    let sum = d + deadline_grace in if leb (sum / 1000000000) u64_max then ok sum else panic

module _ (http : Http) where
  open http use {HeaderMap}

  unfoldable pub grpc_headers : HeaderMap → HeaderMap
  grpc_headers headers =
      put http
        (put http (keep_allowed http (http.header_iter headers) http.empty) (codes "content-type")
          ct_grpc)
        (codes "te") (codes "trailers")

  -- The headers of the client that are not denied, and those of gRPC.
  unfoldable pub upstream_headers : HeaderMap → Option ℕ → Outcome HeaderMap
  upstream_headers headers none = ok (grpc_headers headers)
  upstream_headers headers (some d) = do
    longer ← add_grace d
    ok (put http (grpc_headers headers) (codes "grpc-timeout") (format_timeout longer))
