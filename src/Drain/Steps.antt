-- ===== src/Drain/Steps.antt =====
-- The interleavings of a server that shuts down (rust/crates/grpc-webnext/src/drain.rs and the accept
-- loop of rust/crates/grpc-webnext/src/lib.rs).
use grpc_webnext.Prelude.{ℕ, ◌+◌, ◌<◌, ◌≡◌, List, [], ◌∷◌, ◌++◌, true, false}
use grpc_webnext.Drain.{
  Gate, changed, Stage, checking, subscribing, draining, over, racing, subscribe, check_started,
  Server, start, accept, stop, release, begin, moved, spawn, end_worker, resolve,
}

-- How many connections are not over.
unfoldable pub weight : Stage → ℕ
weight over = 0
weight checking = 1
weight subscribing = 1
weight draining = 1
weight (racing seen) = 1

unfoldable pub alive : List Stage → ℕ
unfolding weight
alive [] = 0
alive (c ∷ cs) = alive cs + weight c

module _ (clone : ℕ → ℕ → ℕ) where
  -- A turn of a connection's task, between two awaits or reads of the channel.
  pub data Turn (g : Gate) : Stage → Stage → Type 0 where
    check : Turn g checking (check_started g)
    subscribed : Turn g subscribing (racing (subscribe clone g))
    told : (seen : ℕ) → changed g seen ≡ true → Turn g (racing seen) draining
    completed : (seen : ℕ) → Turn g (racing seen) over
    finished : Turn g draining over

  pub data Step (s : Server) : Server → Type 0 where
    accepted : s.accepting ≡ true → Step s (accept s)
    stopped : Step s (stop s)
    released : s.accepting ≡ false → s.holds ≡ true → Step s (release s)
    begun : s.holds ≡ false → s.gate.value ≡ false → Step s (begin s)
    turned :
        (before after : List Stage) (c c' : Stage)
        → s.conns ≡ before ++ c ∷ after
        → Turn s.gate c c'
        → Step s (moved s before c' after)
    spawned : 0 < alive s.conns + s.workers → Step s (spawn s)
    worker_ended : 0 < s.workers → Step s (end_worker s)
    finish_resolved : s.gate.value ≡ true → s.gate.tokens ≡ 0 → Step s (resolve s)

  pub data Reachable : Server → Type 0 where
    here : Reachable start
    step : {s s' : Server} → Reachable s → Step s s' → Reachable s'
