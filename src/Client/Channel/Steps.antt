-- ===== src/Client/Channel/Steps.antt =====
-- The interleavings of the calls on a client (rust/crates/grpc-webnext-client/src/client.rs): every
-- piece of code between two awaits is a step, and so is a connection's end.
use grpc_webnext.Prelude.{
  ℕ, suc, ◌≡◌, ◌≢◌, Option, none, some, Bool, true, false, ◌&&◌, ◌==◌, if◌then◌else◌, refl, sym,
  ◌∙◌,
}
use grpc_webnext.Client.Watch.{
  ConnectivityState, idle, connecting, ready, transient_failure, same, get, set,
}
use grpc_webnext.Client.Watch.Changes.{get-set}
use grpc_webnext.Client.Channel.{
  Channel, from_connection, with_connector, conn_closed, is_closed, Entered, live, waiting, dial,
  join_dial, drop_tunnel, enter, Dialed, connected, failed, settle, holds, forget, notice, close,
}

-- A step of some call, or of the environment. A dial may settle at any time, also one that is no
-- longer in the slot.
pub data Step : Channel → Channel → Type 0 where
  entered : (ch : Channel) → Step ch (enter ch).0
  settled : (ch : Channel) (result : Dialed) → Step ch (settle ch result)
  forgotten : (ch : Channel) (conn : ℕ) → Step ch (forget ch conn)
  noticed : (ch : Channel) → Step ch (notice ch)
  ended : (ch : Channel) (conn : ℕ) → Step ch (close ch conn)

pub data Reachable : Channel → Type 0 where
  single_shot : (conn : ℕ) → Reachable (from_connection conn)
  reconnecting : Reachable with_connector
  step : {ch ch' : Channel} → Reachable ch → Step ch ch' → Reachable ch'

-- A channel that says it is ready has a tunnel; while a dial is in flight there is none, the channel
-- says so, and it can dial.
pub record Consistent (ch : Channel) : Type 0 where
  ready_has_tunnel : get ch.state ≡ ready → ch.tunnel ≢ none
  dialing_has_none : ch.dialing ≢ none → ch.tunnel ≡ none
  dialing_is_connecting : ch.dialing ≢ none → get ch.state ≡ connecting
  dialing_reconnects : ch.dialing ≢ none → ch.reconnects ≡ true

from_connection-Consistent : (conn : ℕ) → Consistent (from_connection conn)
unfolding from_connection set get
from_connection-Consistent conn = record {
  ready_has_tunnel = λ e n. cc;
  dialing_has_none = λ d. absurd (d refl);
  dialing_is_connecting = λ d. absurd (d refl);
  dialing_reconnects = λ d. absurd (d refl);
}

with_connector-Consistent : Consistent with_connector
unfolding with_connector get
with_connector-Consistent = record {
  ready_has_tunnel = λ e. cc;
  dialing_has_none = λ d. refl;
  dialing_is_connecting = λ d. absurd (d refl);
  dialing_reconnects = λ d. absurd (d refl);
}

-- A state other than ready, and no dial.
at_rest :
    (ch : Channel) (s : ConnectivityState)
    → get ch.state ≡ s
    → s ≢ ready
    → ch.dialing ≡ none
    → Consistent ch
at_rest ch s e n d = record {
  ready_has_tunnel = λ r. absurd (n (sym e ∙ r));
  dialing_has_none = λ h. absurd (h d);
  dialing_is_connecting = λ h. absurd (h d);
  dialing_reconnects = λ h. absurd (h d);
}

idle_ready : idle ≢ ready
idle_ready e = cc

failure_ready : transient_failure ≢ ready
failure_ready e = cc

-- A tunnel stands only where no dial is in flight.
tunnel_no_dial :
    (ch : Channel) (conn : ℕ) → Consistent ch → ch.tunnel ≡ some conn → ch.dialing ≡ none
tunnel_no_dial ch conn c e = go ch.dialing refl
  where
    go : (o : Option ℕ) → ch.dialing ≡ o → ch.dialing ≡ none
    go none q = q
    go (some d) q =
        let n : ch.tunnel ≡ none =
          c.dialing_has_none (λ z. let w : some d ≡ none = sym q ∙ z in cc) in
        let w : some conn ≡ none = sym e ∙ n in cc

drop_tunnel-Consistent : (ch : Channel) → ch.dialing ≡ none → Consistent (drop_tunnel ch)
unfolding drop_tunnel
drop_tunnel-Consistent ch d = at_rest (drop_tunnel ch) idle (get-set ch.state idle) idle_ready d

dial-Consistent :
    (ch : Channel)
    → ch.tunnel ≡ none
    → ch.reconnects ≡ true
    → Consistent ch
    → Consistent (dial ch).0
unfolding dial
dial-Consistent ch t r c = go ch.dialing
  where
    go :
        (o : Option ℕ)
        → let r : Channel × Entered = elim o [
          | some d ↦ (ch, waiting d)
          | none ↦ (
            record ch {
              state = set ch.state connecting;
              dialing = some ch.next_dial;
              next_dial = suc ch.next_dial;
            },
            waiting ch.next_dial,
          )
        ] in
          Consistent r.0
    go (some d) = c
    go none = record {
      ready_has_tunnel =
          λ q. let w : connecting ≡ ready = sym (get-set ch.state connecting) ∙ q in cc;
      dialing_has_none = λ h. t;
      dialing_is_connecting = λ h. get-set ch.state connecting;
      dialing_reconnects = λ h. r;
    }

join_dial-Consistent :
    (ch : Channel) → ch.tunnel ≡ none → Consistent ch → Consistent (join_dial ch).0
unfolding join_dial
join_dial-Consistent ch t c = go ch.reconnects refl _
  where
    go :
        (r : Bool)
        → ch.reconnects ≡ r
        → (other : Entered) → Consistent (if r then dial ch else (ch, other)).0
    go false e other = c
    go true e other = dial-Consistent ch t e c

enter-Consistent : (ch : Channel) → Consistent ch → Consistent (enter ch).0
unfolding enter
enter-Consistent ch c = go ch.tunnel refl
  where
    dead :
        (conn : ℕ) (b : Bool)
        → ch.tunnel ≡ some conn
        → Consistent (if b then join_dial (drop_tunnel ch) else (ch, live conn)).0
    dead conn true e =
        unfold drop_tunnel in
        join_dial-Consistent (drop_tunnel ch) refl
          (drop_tunnel-Consistent ch (tunnel_no_dial ch conn c e))
    dead conn false e = c

    go :
        (o : Option ℕ)
        → ch.tunnel ≡ o
        → let r : Channel × Entered = elim o [
          | some conn ↦ if conn_closed ch conn then join_dial (drop_tunnel ch) else (ch, live conn)
          | none ↦ join_dial ch
        ] in
          Consistent r.0
    go none e = join_dial-Consistent ch e c
    go (some conn) e = dead conn (conn_closed ch conn) e

settle-Consistent : (ch : Channel) (result : Dialed) → Consistent (settle ch result)
unfolding settle
settle-Consistent ch (connected conn) = record {
  ready_has_tunnel = λ q z. cc;
  dialing_has_none = λ h. absurd (h refl);
  dialing_is_connecting = λ h. absurd (h refl);
  dialing_reconnects = λ h. absurd (h refl);
}
settle-Consistent ch (failed e) =
    at_rest _ transient_failure (get-set ch.state transient_failure) failure_ready refl

forget-Consistent : (ch : Channel) (conn : ℕ) → Consistent ch → Consistent (forget ch conn)
unfolding forget holds
forget-Consistent ch dead c = go ch.tunnel refl
  where
    held :
        (conn : ℕ) (b : Bool)
        → ch.tunnel ≡ some conn
        → Consistent (if b then drop_tunnel ch else ch)
    held conn true e = drop_tunnel-Consistent ch (tunnel_no_dial ch conn c e)
    held conn false e = c

    go :
        (o : Option ℕ)
        → ch.tunnel ≡ o
        → Consistent
            (if elim o [ none ↦ false | some conn ↦ conn == dead ] then drop_tunnel ch else ch)
    go none e = c
    go (some conn) e = held conn (conn == dead) e

is_ready : (s : ConnectivityState) (b : Bool) → same s ready && b ≡ true → s ≡ ready
unfolding same
is_ready idle b q = cc
is_ready connecting b q = cc
is_ready ready b q = refl
is_ready transient_failure b q = cc

notice-Consistent : (ch : Channel) → Consistent ch → Consistent (notice ch)
unfolding notice
notice-Consistent ch c = go (same (get ch.state) ready && is_closed ch) refl
  where
    settled_down : (o : Option ℕ) → ch.dialing ≡ o → get ch.state ≡ ready → ch.dialing ≡ none
    settled_down none e r = e
    settled_down (some d) e r =
        let q = c.dialing_is_connecting (λ z. let w : some d ≡ none = sym e ∙ z in cc) in
        let w : connecting ≡ ready = sym q ∙ r in cc

    go :
        (b : Bool)
        → same (get ch.state) ready && is_closed ch ≡ b
        → Consistent (if b then record ch { state = set ch.state idle } else ch)
    go false e = c
    go true e =
        at_rest (record ch { state = set ch.state idle }) idle (get-set ch.state idle) idle_ready
          (settled_down ch.dialing refl (is_ready (get ch.state) (is_closed ch) e))

close-Consistent : (ch : Channel) (conn : ℕ) → Consistent ch → Consistent (close ch conn)
unfolding close
close-Consistent ch conn c = record {
  ready_has_tunnel = c.ready_has_tunnel;
  dialing_has_none = c.dialing_has_none;
  dialing_is_connecting = c.dialing_is_connecting;
  dialing_reconnects = c.dialing_reconnects;
}

Step-Consistent : {ch ch' : Channel} → Step ch ch' → Consistent ch → Consistent ch'
Step-Consistent (entered ch) c = enter-Consistent ch c
Step-Consistent (settled ch result) c = settle-Consistent ch result
Step-Consistent (forgotten ch conn) c = forget-Consistent ch conn c
Step-Consistent (noticed ch) c = notice-Consistent ch c
Step-Consistent (ended ch conn) c = close-Consistent ch conn c

-- However the calls on a client interleave, and whenever its connections end: a channel that says it
-- is ready has a tunnel, and while a dial is in the slot there is no tunnel, the channel says that it
-- is connecting, and it was built with a connector.
pub Reachable-Consistent : {ch : Channel} → Reachable ch → Consistent ch
Reachable-Consistent (single_shot conn) = from_connection-Consistent conn
Reachable-Consistent reconnecting = with_connector-Consistent
Reachable-Consistent (step r s) = Step-Consistent s (Reachable-Consistent r)
