-- ===== src/Drain.antt =====
-- Graceful shutdown: rust/crates/grpc-webnext/src/drain.rs, and the accept loop `run` of lib.rs that
-- starts it. A watch channel is its value and the number of values sent, a receiver the number that
-- it has seen, and the mpsc channel the number of its senders.
pub mod Steps
pub mod Consistent
pub mod Told
use grpc_webnext.Prelude.{
  ℕ, ◌+◌, ◌-◌, ◌<◌, ◌≡◌, List, [], ◌∷◌, ◌++◌, Bool, true, false, not, ◌==◌, if◌then◌else◌,
}

-- What the controller and all handles share.
pub record Gate : Type 0 where
  pub value : Bool
  pub version : ℕ
  pub tokens : ℕ

-- `channel`: the receiver of the one handle has seen nothing, and so have its clones.
unfoldable pub channel : Gate
channel = record { value = false; version = 0; tokens = 1 }

abbrev pub handle_seen : ℕ
handle_seen = 0

unfoldable pub started : Gate → Bool
started g = g.value

-- `changed()` is ready for a receiver.
pub changed : Gate → ℕ → Bool
changed g seen = not (seen == g.version)

-- `self.start.send(true)`.
unfoldable pub send_start : Gate → Gate
send_start g = record g { value = true; version = g.version + 1 }

unfoldable pub take_token : Gate → Gate
take_token g = record g { tokens = g.tokens + 1 }

unfoldable pub drop_token : Gate → Gate
drop_token g = record g { tokens = g.tokens - 1 }

-- `Drain::wait`.
pub data Wait : Type 0 where
  returned : Wait
  awaiting : ℕ → Wait

-- What runs under `serve_graceful!`; `draining` was asked to shut down.
pub data Stage : Type 0 where
  checking subscribing draining over : Stage
  racing : ℕ → Stage

-- What a clone of a receiver has seen, of what the receiver has and of the values sent.
module _ (clone : ℕ → ℕ → ℕ) where
  pub subscribe : Gate → ℕ
  subscribe g = clone handle_seen g.version

  pub wait : Gate → Wait
  unfolding subscribe
  wait g = if g.value then returned else awaiting (subscribe g)

-- The wait is polled.
pub poll_wait : Gate → Wait → Wait
unfolding changed
poll_wait g returned = returned
poll_wait g (awaiting seen) = if changed g seen then returned else awaiting seen

unfoldable pub check_started : Gate → Stage
unfolding started
check_started g = if started g then draining else subscribing

-- The accept loop, the connections, and the tasks that were spawned for their requests. `holds` says
-- that the loop holds its own `Runtime`, and `resolved` that `finish` has returned.
pub record Server : Type 0 where
  pub gate : Gate
  pub accepting : Bool
  pub holds : Bool
  pub conns : List Stage
  pub workers : ℕ
  pub resolved : Bool

unfoldable pub start : Server
unfolding channel
start = record {
  gate = channel;
  accepting = true;
  holds = true;
  conns = [];
  workers = 0;
  resolved = false;
}

-- An accepted connection gets a task.
unfoldable pub accept : Server → Server
unfolding take_token
accept s = record s { gate = take_token s.gate; conns = checking ∷ s.conns }

-- `break`: on the shutdown, or on an error of the listener.
unfoldable pub stop : Server → Server
stop s = record s { accepting = false }

-- `drop(rt)`.
unfoldable pub release : Server → Server
unfolding drop_token
release s = record s { gate = drop_token s.gate; holds = false }

-- `controller.finish()`, up to its await.
unfoldable pub begin : Server → Server
unfolding send_start
begin s = record s { gate = send_start s.gate }

-- A task of a connection that is over drops its token.
unfoldable pub left_gate : Stage → Gate → Gate
unfolding drop_token
left_gate over g = drop_token g
left_gate stage g = g

unfoldable pub moved : Server → List Stage → Stage → List Stage → Server
unfolding left_gate
moved s before c after = record s { gate = left_gate c s.gate; conns = before ++ c ∷ after }

pub spawn : Server → Server
unfolding take_token
spawn s = record s { gate = take_token s.gate; workers = s.workers + 1 }

pub end_worker : Server → Server
unfolding drop_token
end_worker s = record s { gate = drop_token s.gate; workers = s.workers - 1 }

unfoldable pub resolve : Server → Server
resolve s = record s { resolved = true }
