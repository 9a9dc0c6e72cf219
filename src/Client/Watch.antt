-- ===== src/Client/Watch.antt =====
-- rust/crates/grpc-webnext-client/src/state.rs: the connectivity of a channel, and its watchers. A
-- watcher's channel is what it was sent, and whether its receiver is still there.
pub mod Changes
pub mod Delivered
use grpc_webnext.Prelude.{
  List, [], ◌∷◌, ◌++◌, Option, none, some, Bool, true, false, map, retain, if◌then◌else◌,
}

pub data ConnectivityState : Type 0 where
  idle connecting ready transient_failure : ConnectivityState

unfoldable pub same : ConnectivityState → ConnectivityState → Bool
same idle idle = true
same connecting connecting = true
same ready ready = true
same transient_failure transient_failure = true
same a b = false

pub record Watcher : Type 0 where
  pub seen : List ConnectivityState
  pub receiving : Bool

-- `StateWatch`, by its inner record.
pub record StateWatch : Type 0 where
  pub state : Option ConnectivityState
  pub watchers : List Watcher

abbrev pub default : StateWatch
default = record { state = none; watchers = [] }

unfoldable pub get : StateWatch → ConnectivityState
get w = elim w.state [ none ↦ idle | some s ↦ s ]

-- `w.unbounded_send(state)`, which fails where the receiver is gone.
unfoldable pub send : ConnectivityState → Watcher → Watcher
send s w = record { seen = w.seen ++ s ∷ []; receiving = w.receiving }

-- `inner.state == Some(state)`.
unfoldable pub is_state : Option ConnectivityState → ConnectivityState → Bool
is_state none s = false
is_state (some t) s = same t s

unfoldable pub set : StateWatch → ConnectivityState → StateWatch
unfolding send is_state
set w s =
    if is_state w.state s
    then w
    else record { state = some s; watchers = map (send s) (retain (λ v. v.receiving) w.watchers) }

unfoldable pub watch : StateWatch → StateWatch
watch w = record w { watchers = w.watchers ++ record { seen = []; receiving = true } ∷ [] }
