-- ===== src/Drain/Consistent.antt =====
-- What holds of a server in every interleaving (rust/crates/grpc-webnext/src/drain.rs).
use grpc_webnext.Prelude.{
  ℕ, ◌+◌, ◌-◌, ◌<◌, ◌≤◌, ◌≡◌, List, [], ◌∷◌, ◌++◌, true, false, All, All-append, if◌then◌else◌,
  refl, sym, subst, ap, ◌∙◌, arith,
}
use grpc_webnext.Drain.{
  Gate, Stage, checking, subscribing, draining, over, racing, subscribe, check_started, Server,
  start, accept, stop, release, begin, left_gate, moved, spawn, end_worker, resolve,
}
use grpc_webnext.Drain.Steps.{
  weight, alive, Turn, check, subscribed, told, completed, finished, Step, accepted, stopped,
  released, begun, turned, spawned, worker_ended, finish_resolved, Reachable, here, step,
}

-- A receiver that waits has seen no value.
unfoldable pub Fresh : Stage → Type 0
Fresh checking = Unit
Fresh subscribing = Unit
Fresh draining = Unit
Fresh over = Unit
Fresh (racing seen) = seen ≡ 0

-- Each token is the loop's, a connection's or a request's; one value is sent at most, by a loop that
-- has given up its own token; and the drain has ended only where no token is left.
pub record Consistent (s : Server) : Type 0 where
  pub counted : s.gate.tokens ≡ (if s.holds then 1 else 0) + alive s.conns + s.workers
  pub version : s.gate.version ≡ (if s.gate.value then 1 else 0)
  pub held : s.accepting ≡ true → s.holds ≡ true
  pub quiet : s.gate.value ≡ true → s.holds ≡ false
  pub fresh : All Fresh s.conns
  pub idle : s.resolved ≡ true → (s.gate.value ≡ true) × (s.gate.tokens ≡ 0)

alive-append : (xs ys : List Stage) → alive (xs ++ ys) ≡ alive xs + alive ys
unfolding alive
alive-append [] ys = omega arith
alive-append (x ∷ xs) ys = omega (arith, alive-append xs ys)

All-split :
    (xs ys : List Stage) (c : Stage)
    → All Fresh (xs ++ c ∷ ys)
    → All Fresh xs × Fresh c × All Fresh ys
All-split [] ys c (h, hs) = (tt, h, hs)
All-split (x ∷ xs) ys c (h, hs) = let (a, b, d) = All-split xs ys c hs in ((h, a), b, d)

accept-Consistent : (s : Server) → s.accepting ≡ true → Consistent s → Consistent (accept s)
unfolding accept alive Fresh
accept-Consistent s a c = ground (arith, c.held a)

stop-Consistent : (s : Server) → Consistent s → Consistent (stop s)
unfolding stop
stop-Consistent s c = ground arith

release-Consistent :
    (s : Server) → s.accepting ≡ false → s.holds ≡ true → Consistent s → Consistent (release s)
unfolding release
release-Consistent s a h c = ground arith

begin-Consistent :
    (s : Server) → s.holds ≡ false → s.gate.value ≡ false → Consistent s → Consistent (begin s)
unfolding begin
begin-Consistent s h v c = ground arith

spawn-Consistent :
    (s : Server) → 0 < alive s.conns + s.workers → Consistent s → Consistent (spawn s)
unfolding spawn
spawn-Consistent s p c = ground arith

end_worker-Consistent : (s : Server) → 0 < s.workers → Consistent s → Consistent (end_worker s)
unfolding end_worker
end_worker-Consistent s p c = ground arith

resolve-Consistent :
    (s : Server) → s.gate.value ≡ true → s.gate.tokens ≡ 0 → Consistent s → Consistent (resolve s)
unfolding resolve
resolve-Consistent s v t c = ground arith

start-Consistent : Consistent start
unfolding start alive Fresh
start-Consistent = ground arith

-- A task of a connection drops its token when the connection is over.
left_gate_lem :
    (c : Stage) (g : Gate)
    → ((left_gate c g).tokens ≡ g.tokens - (1 - weight c))
      × ((left_gate c g).value ≡ g.value)
      × ((left_gate c g).version ≡ g.version)
unfolding left_gate weight
left_gate_lem over g = (omega arith, refl, refl)
left_gate_lem checking g = (omega arith, refl, refl)
left_gate_lem subscribing g = (omega arith, refl, refl)
left_gate_lem draining g = (omega arith, refl, refl)
left_gate_lem (racing seen) g = (omega arith, refl, refl)

moved-Consistent :
    (s : Server) (before after : List Stage) (c c' : Stage)
    → s.conns ≡ before ++ c ∷ after
    → weight c ≡ 1
    → weight c' ≤ 1
    → Fresh c'
    → Consistent s
    → Consistent (moved s before c' after)
unfolding moved alive
moved-Consistent s before after c c' e w w' f k =
    let l = left_gate_lem c' s.gate in
    let n : alive s.conns ≡ alive before + (alive after + 1) =
      ap alive e ∙ alive-append before (c ∷ after) ∙ omega (arith, w) in
    let n' : alive (before ++ c' ∷ after) ≡ alive before + (alive after + weight c') =
      alive-append before (c' ∷ after) in
    let (x, y, z) = All-split before after c (subst (λ l. All Fresh l) e k.fresh) in
    record {
      counted = omega (arith, k.counted, l.0, n, n');
      version = l.2 ∙ k.version ∙ ap (λ b. if b then 1 else 0) (sym l.1);
      held = k.held;
      quiet = λ v. k.quiet (sym l.1 ∙ v);
      fresh = All-append _ before (c' ∷ after) x (f, z);
      idle = λ r. let i = k.idle r in (l.1 ∙ i.0, omega (arith, l.0, i.1));
    }

Turn-weight :
    (clone : ℕ → ℕ → ℕ)
    → ((own current : ℕ) → clone own current ≡ own)
    → {g : Gate} {c c' : Stage} → Turn clone g c c'
    → (weight c ≡ 1) × (weight c' ≤ 1) × Fresh c'
unfolding weight Fresh subscribe check_started
Turn-weight clone keeps {g} check = ground arith
Turn-weight clone keeps {g} subscribed = (refl, omega arith, keeps _ g.version)
Turn-weight clone keeps (told seen e) = (refl, omega arith, tt)
Turn-weight clone keeps (completed seen) = (refl, omega arith, tt)
Turn-weight clone keeps finished = (refl, omega arith, tt)

module _ (clone : ℕ → ℕ → ℕ) (keeps : (own current : ℕ) → clone own current ≡ own) where
  Step-Consistent : {s s' : Server} → Step clone s s' → Consistent s → Consistent s'
  Step-Consistent {s} (accepted a) c = accept-Consistent s a c
  Step-Consistent {s} stopped c = stop-Consistent s c
  Step-Consistent {s} (released a h) c = release-Consistent s a h c
  Step-Consistent {s} (begun h v) c = begin-Consistent s h v c
  Step-Consistent {s} (turned before after x x' e t) c =
      let (w, w', f) = Turn-weight clone keeps t in moved-Consistent s before after x x' e w w' f c
  Step-Consistent {s} (spawned p) c = spawn-Consistent s p c
  Step-Consistent {s} (worker_ended p) c = end_worker-Consistent s p c
  Step-Consistent {s} (finish_resolved v t) c = resolve-Consistent s v t c

  pub Server-Consistent : {s : Server} → Reachable clone s → Consistent s
  Server-Consistent here = start-Consistent
  Server-Consistent (step r t) = Step-Consistent t (Server-Consistent r)
