-- ===== src/Client/Channel.antt =====
-- The tunnel of a client (rust/crates/grpc-webnext-client/src/client.rs): `tunnel`, `forget`, `state`.
-- Connections and dials are numbered, the code between two awaits is one function, and which
-- connections are closed is part of the state that the environment changes.
pub mod Steps
pub mod Redial
use grpc_webnext.Prelude.{
  ℕ, suc, List, [], ◌∷◌, Option, none, some, Bool, true, false, not, ◌&&◌, ◌==◌, Bytes, codes, any,
  if◌then◌else◌,
}
use grpc_webnext.Client.Status.{unavailable}
use grpc_webnext.Client.Terminal.{Status, status_new}
use grpc_webnext.Client.Watch.{
  ConnectivityState, idle, connecting, ready, transient_failure, same, StateWatch, default, get,
  set,
}

-- `Inner`: whether there is a connector, the tunnel, the dial in flight, the state; the closed
-- connections, and the number of the next dial.
pub record Channel : Type 0 where
  pub reconnects : Bool
  pub tunnel : Option ℕ
  pub dialing : Option ℕ
  pub state : StateWatch
  pub closed : List ℕ
  pub next_dial : ℕ

pub from_connection : ℕ → Channel
from_connection conn = record {
  reconnects = false;
  tunnel = some conn;
  dialing = none;
  state = set default ready;
  closed = [];
  next_dial = 0;
}

pub with_connector : Channel
with_connector = record {
  reconnects = true;
  tunnel = none;
  dialing = none;
  state = default;
  closed = [];
  next_dial = 0;
}

-- `conn.is_closed()`.
pub conn_closed : Channel → ℕ → Bool
conn_closed ch conn = any (λ c. c == conn) ch.closed

-- `tunnel.as_ref().is_none_or(|c| c.is_closed())`.
pub is_closed : Channel → Bool
unfolding conn_closed
is_closed ch = elim ch.tunnel [ none ↦ true | some conn ↦ conn_closed ch conn ]

-- What `tunnel()` comes to before its await: a live connection, an error, or a dial to wait for.
pub data Entered : Type 0 where
  live : ℕ → Entered
  refused : Status → Entered
  waiting : ℕ → Entered

-- A dial in flight is joined, or one is started.
pub dial : Channel → Channel × Entered
dial ch = elim ch.dialing [
  | some d ↦ (ch, waiting d)
  | none ↦ (
    record ch {
      state = set ch.state connecting;
      dialing = some ch.next_dial;
      next_dial = suc ch.next_dial;
    },
    waiting ch.next_dial,
  )
]

pub join_dial : Channel → Channel × Entered
unfolding dial
join_dial ch = if ch.reconnects then dial ch else (
  ch,
  refused (
      status_new unavailable (
        codes
          "the tunnel is closed and this client cannot redial (built over a caller-supplied transport)")),
)

-- A dead tunnel is dropped, and reported, before the redial.
pub drop_tunnel : Channel → Channel
drop_tunnel ch = record ch { tunnel = none; state = set ch.state idle }

-- `tunnel()`, up to its await.
pub enter : Channel → Channel × Entered
unfolding join_dial drop_tunnel
enter ch = elim ch.tunnel [
  | some conn ↦ if conn_closed ch conn then join_dial (drop_tunnel ch) else (ch, live conn)
  | none ↦ join_dial ch
]

-- What a dial yields: a fresh connection, or the connector's error.
pub data Dialed : Type 0 where
  connected : ℕ → Dialed
  failed : Status → Dialed

-- `tunnel()`, behind its await.
unfoldable pub settle : Channel → Dialed → Channel
settle ch (connected conn) = record ch {
  dialing = none;
  state = set ch.state ready;
  tunnel = some conn;
}
settle ch (failed e) = record ch { dialing = none; state = set ch.state transient_failure }

-- `tunnel.as_ref().is_some_and(|c| Rc::ptr_eq(c, dead))`.
pub holds : Channel → ℕ → Bool
holds ch dead = elim ch.tunnel [ none ↦ false | some conn ↦ conn == dead ]

pub forget : Channel → ℕ → Channel
unfolding drop_tunnel holds
forget ch dead = if holds ch dead then drop_tunnel ch else ch

-- `state()`: a tunnel that died is noticed.
pub notice : Channel → Channel
unfolding is_closed
notice ch =
    if same (get ch.state) ready && is_closed ch
    then record ch { state = set ch.state idle }
    else ch

pub state : Channel → Channel × ConnectivityState
state ch = (notice ch, get (notice ch).state)

-- The environment closes a connection.
pub close : Channel → ℕ → Channel
close ch conn = record ch { closed = conn ∷ ch.closed }
