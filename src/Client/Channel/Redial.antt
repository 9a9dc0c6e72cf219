-- ===== src/Client/Channel/Redial.antt =====
-- That a client with a connector reaches a tunnel again (rust/crates/grpc-webnext-client/src/client.rs).
use grpc_webnext.Prelude.{
  ℕ, suc, ◌≡◌, List, Option, none, some, Bool, true, false, ◌==◌, any, if◌then◌else◌, refl, sym,
  subst, arith, Bytes, codes, ◌++◌,
}
use grpc_webnext.Client.Watch.{StateWatch, idle, connecting, ready, get, set}
use grpc_webnext.Client.Watch.Changes.{get-set}
use grpc_webnext.Client.Channel.{
  Channel, conn_closed, Entered, live, waiting, dial, join_dial, drop_tunnel, enter, connected,
  settle, holds, forget,
}
use grpc_webnext.Client.Status.{unavailable}
use grpc_webnext.Client.Terminal.{status_new}
use grpc_webnext.Client.Call.{not_sent, rejected, send_on}

-- What a call that enters has: a connection that is not closed, or a dial that is in the slot.
pub data Progress (before : Channel) : Channel × Entered → Type 0 where
  on_tunnel : (conn : ℕ) → conn_closed before conn ≡ false → Progress before (before, live conn)
  on_dial : (after : Channel) (d : ℕ) → after.dialing ≡ some d → Progress before (after, waiting d)

dial-Progress : (before ch : Channel) → Progress before (dial ch)
unfolding dial
dial-Progress before ch = go ch.dialing refl
  where
    go :
        (o : Option ℕ)
        → ch.dialing ≡ o
        → let r : Channel × Entered = elim o [
          | some d ↦ (ch, waiting d)
          | none ↦ (
            record ch {
              state = set ch.state connecting;
              dialing = some ch.next_dial;
              next_dial = suc ch.next_dial;
            },
            waiting ch.next_dial,
          )
        ] in
          Progress before r
    go (some d) e = on_dial ch d e
    go none e = on_dial _ ch.next_dial refl

join_dial-Progress : (before ch : Channel) → ch.reconnects ≡ true → Progress before (join_dial ch)
unfolding join_dial
join_dial-Progress before ch r = go ch.reconnects r _
  where
    go :
        (b : Bool)
        → b ≡ true
        → (other : Entered) → Progress before (if b then dial ch else (ch, other))
    go true e other = dial-Progress before ch
    go false e other = cc

-- A call on a client with a connector is never refused: it goes on with a connection that is not
-- closed, or it waits for the dial that is in the slot.
enter-Progress : (ch : Channel) → ch.reconnects ≡ true → Progress ch (enter ch)
unfolding enter
enter-Progress ch r = go ch.tunnel
  where
    held :
        (conn : ℕ) (b : Bool)
        → conn_closed ch conn ≡ b
        → Progress ch (if b then join_dial (drop_tunnel ch) else (ch, live conn))
    held conn true e = unfold drop_tunnel in join_dial-Progress ch (drop_tunnel ch) r
    held conn false e = on_tunnel conn e

    go :
        (o : Option ℕ)
        → let p : Channel × Entered = elim o [
          | some conn ↦ if conn_closed ch conn then join_dial (drop_tunnel ch) else (ch, live conn)
          | none ↦ join_dial ch
        ] in
          Progress ch p
    go none = join_dial-Progress ch ch r
    go (some conn) = held conn (conn_closed ch conn) refl

eq_refl : (n : ℕ) → n == n ≡ true
eq_refl n = ground arith

-- A client with a connector, on a tunnel, with no dial in the slot.
abbrev pub on_conn : ℕ → StateWatch → List ℕ → ℕ → Channel
on_conn conn state closed next_dial = record {
  reconnects = true;
  tunnel = some conn;
  dialing = none;
  state = state;
  closed = closed;
  next_dial = next_dial;
}

-- Once a client with a connector forgets its tunnel while no dial is in the slot, the channel is idle, the next call starts a dial, and where this dial yields a connection that is not
-- closed, the channel is ready and the call after it goes on with this connection.
forget-redials :
    (conn fresh : ℕ) (state : StateWatch) (closed : List ℕ) (next_dial : ℕ)
    → any (λ c. c == fresh) closed ≡ false
    → let dropped = forget (on_conn conn state closed next_dial) conn in
      let redialed = settle (enter dropped).0 (connected fresh) in
      (get dropped.state ≡ idle)
      × ((enter dropped).1 ≡ waiting next_dial)
      × (get redialed.state ≡ ready)
      × ((enter redialed).1 ≡ live fresh)
unfolding forget holds drop_tunnel enter join_dial dial settle conn_closed
forget-redials conn fresh state closed next_dial e =
    rw (eq_refl conn) (get-set state idle, refl, get-set _ ready, rw e refl)

-- If a request fails on the tunnel of a client with a connector while no dial is in the slot, the call
-- is rejected as unavailable, and: where the connection is closed, the channel is idle, the next call
-- starts a dial, and where this dial yields a connection that is not closed, the channel is ready and
-- the call after it goes on with this connection; where the connection is open, the channel stays as it
-- is, and the next call goes on with the connection.
pub send_on-redials :
    (conn fresh : ℕ) (state : StateWatch) (closed : List ℕ) (next_dial : ℕ) (e : Bytes)
    → any (λ c. c == fresh) closed ≡ false
    → let before = on_conn conn state closed next_dial in
      let (after, result) = send_on before conn (not_sent e) in
      let redialed = settle (enter after).0 (connected fresh) in
      (result ≡ rejected (status_new unavailable (codes "request failed: " ++ e)))
      × (any (λ c. c == conn) closed ≡ true
          → (get after.state ≡ idle)
            × ((enter after).1 ≡ waiting next_dial)
            × (get redialed.state ≡ ready)
            × ((enter redialed).1 ≡ live fresh))
      × (any (λ c. c == conn) closed ≡ false
          → (after ≡ before) × (enter after ≡ (before, live conn)))
unfolding send_on
send_on-redials conn fresh state closed next_dial e f =
    let before = on_conn conn state closed next_dial in
    (
      refl,
      λ dead.
          let dropped : (send_on before conn (not_sent e)).0 ≡ forget before conn =
            unfold conn_closed in rw dead refl in
          subst
            (λ after.
              (get after.state ≡ idle)
              × ((enter after).1 ≡ waiting next_dial)
              × (get (settle (enter after).0 (connected fresh)).state ≡ ready)
              × ((enter (settle (enter after).0 (connected fresh))).1 ≡ live fresh))
            (sym dropped) (forget-redials conn fresh state closed next_dial f),
      λ alive.
          let same : (send_on before conn (not_sent e)).0 ≡ before =
            unfold conn_closed in rw alive refl in
          subst (λ after. (after ≡ before) × (enter after ≡ (before, live conn))) (sym same)
            (refl, unfold enter in unfold conn_closed in rw alive refl),
    )
