-- ===== src/Drain/Told.antt =====
-- Who is told of a drain, and when it is over (rust/crates/grpc-webnext/src/drain.rs).
use grpc_webnext.Prelude.{
  ℕ, ◌≡◌, ◌⊎◌, inl, inr, List, [], ◌∷◌, Bool, true, false, All, if◌then◌else◌, refl, subst, ap, ◌∙◌,
  arith,
}
use grpc_webnext.Drain.{
  Gate, started, changed, send_start, Stage, checking, subscribing, draining, over, racing,
  subscribe, check_started, Server, returned, awaiting, wait, poll_wait,
}
use grpc_webnext.Drain.Steps.{weight, alive, Turn, check, subscribed, told, Reachable}
use grpc_webnext.Drain.Consistent.{Fresh, Server-Consistent}

-- Turns of one task, with nothing else in between.
pub data Turns (clone : ℕ → ℕ → ℕ) (g : Gate) (c : Stage) : Stage → Type 0 where
  none_yet : Turns clone g c c
  then_turn : {d e : Stage} → Turns clone g c d → Turn clone g d e → Turns clone g c e

-- The task is over, or its own turns lead to where the connection is asked to shut down.
pub Told : (ℕ → ℕ → ℕ) → Gate → Stage → Type 0
Told clone g c = (c ≡ over) ⊎ (Turns clone g c draining)

none_alive : (cs : List Stage) → alive cs ≡ 0 → All (λ c. c ≡ over) cs
unfolding alive weight
none_alive [] e = tt
none_alive (over ∷ cs) e = (refl, none_alive cs (omega arith))
none_alive (checking ∷ cs) e = absurd (omega arith)
none_alive (subscribing ∷ cs) e = absurd (omega arith)
none_alive (draining ∷ cs) e = absurd (omega arith)
none_alive (racing seen ∷ cs) e = absurd (omega arith)

module _ (clone : ℕ → ℕ → ℕ) (keeps : (own current : ℕ) → clone own current ≡ own) where
  -- If a clone of a receiver has seen what the receiver has, then in every interleaving the drain
  -- has returned only where it had begun, the loop accepts nothing more, every connection is over and
  -- no request's task is left.
  pub resolved-over :
      {s : Server}
      → Reachable clone s
      → s.resolved ≡ true
      → (s.gate.value ≡ true)
        × (s.accepting ≡ false)
        × All (λ c. c ≡ over) s.conns
        × (s.workers ≡ 0)
  resolved-over {s} r e =
      let c = Server-Consistent clone keeps r in
      let (v, t) = c.idle e in
      (
        v,
        go s.accepting refl (c.held) (c.quiet v),
        none_alive s.conns (omega (arith, c.counted, t)),
        omega (arith, c.counted, t),
      )
    where
      go :
          (a : Bool)
          → s.accepting ≡ a
          → (s.accepting ≡ true → s.holds ≡ true)
          → s.holds ≡ false
          → a ≡ false
      go true q h f = let x : s.holds ≡ true = h q in cc
      go false q h f = refl

  stage-Told : (g : Gate) (c : Stage) → g.value ≡ true → g.version ≡ 1 → Fresh c → Told clone g c
  unfolding Told Fresh check_started started changed subscribe
  stage-Told g over v n f = inl refl
  stage-Told g draining v n f = inr none_yet
  stage-Told g checking v n f =
      inr (subst (λ d. Turns clone g checking d) (rw v refl) (then_turn none_yet check))
  stage-Told g (racing seen) v n f = inr (then_turn none_yet (told seen (rw (f, n) refl)))
  stage-Told g subscribing v n f =
      inr (then_turn (then_turn none_yet subscribed) (told _ (rw (keeps 0 g.version, n) refl)))

  -- If a clone of a receiver has seen what the receiver has, then in every interleaving in which the
  -- drain has begun, each connection is over or asked to shut down by turns of its own task, with no
  -- turn of another in between: none misses the signal, also none that is between its check and its
  -- subscription.
  pub started-Told :
      {s : Server} → Reachable clone s → s.gate.value ≡ true → All (Told clone s.gate) s.conns
  started-Told {s} r v =
      let c = Server-Consistent clone keeps r in
      all s.conns c.fresh (c.version ∙ ap (λ b. if b then 1 else 0) v)
    where
      all : (cs : List Stage) → All Fresh cs → s.gate.version ≡ 1 → All (Told clone s.gate) cs
      all [] f n = tt
      all (x ∷ cs) (f, fs) n = (stage-Told s.gate x v n f, all cs fs n)

  -- A wait that started before the drain returns when it is polled behind it.
  poll_wait-send_start :
      (g : Gate)
      → g.version ≡ (if g.value then 1 else 0)
      → poll_wait (send_start g) (wait clone g) ≡ returned
  unfolding poll_wait wait send_start changed subscribe
  poll_wait-send_start g e = go g.value refl
    where
      go :
          (b : Bool)
          → g.value ≡ b
          → poll_wait (send_start g) (if b then returned else awaiting (clone 0 g.version))
            ≡ returned
      go true q = refl
      go false q =
          let n : g.version ≡ 0 = e ∙ ap (λ b. if b then 1 else 0) q in
          rw (keeps 0 g.version, n) refl
