-- ===== src/Client/Watch/Delivered.antt =====
-- That a watcher of rust/crates/grpc-webnext-client/src/state.rs misses no change.
use grpc_webnext.Prelude.{
  ◌≡◌, List, [], ◌∷◌, ◌++◌, Option, none, some, Bool, true, false, All, map, retain, if◌then◌else◌,
  refl, ap, sym, ◌∙◌, subst, map-append, append_assoc, append-nil,
}
use grpc_webnext.Client.Watch.{
  ConnectivityState, same, Watcher, StateWatch, default, set, watch, send, is_state,
}
use grpc_webnext.Client.Watch.Changes.{
  Honest, Act, set_to, watched, abandoned, abandon, acts, act-Honest, acts-Honest,
}

-- A state is set while it is the state.
abbrev pub lasts : Option ConnectivityState → ConnectivityState → Bool
lasts none s = false
lasts (some t) s = same t s

-- The states that are set, less those that are set again while they last.
abbrev pub changes : Option ConnectivityState → List Act → List ConnectivityState
changes now [] = []
changes now (set_to s ∷ as') =
    let later = changes (some s) as' in if lasts now s then changes now as' else s ∷ later
changes now (watched ∷ as') = changes now as'
changes now (abandoned gone ∷ as') = changes now as'

-- The receiver of a watcher that has seen some states never goes.
abbrev pub Stays : Option ConnectivityState → List ConnectivityState → List Act → Type 0
Stays now seen [] = Unit
Stays now seen (set_to s ∷ as') =
    if lasts now s then Stays now seen as' else Stays (some s) (seen ++ s ∷ []) as'
Stays now seen (watched ∷ as') = Stays now seen as'
Stays now seen (abandoned gone ∷ as') =
    (gone (record { seen = seen; receiving = true }) ≡ false) × Stays now seen as'

-- A watcher whose receiver is there, among others.
Present : List ConnectivityState → List Watcher → Type 0
Present seen vs =
    (others : List Watcher) × (later : List Watcher) × (vs
      ≡ others ++ record { seen = seen; receiving = true } ∷ later)

map-Present :
    (f : Watcher → Watcher) (xs xs' : List ConnectivityState)
    → f (record { seen = xs; receiving = true }) ≡ record { seen = xs'; receiving = true }
    → (vs : List Watcher) → Present xs vs
    → Present xs' (map f vs)
unfolding Present
map-Present f xs xs' e vs (o, l, q) =
    (map f o, map f l, ap (map f) q ∙ map-append f o _ ∙ ap (λ v. map f o ++ v ∷ map f l) e)

retain-Present :
    (xs : List ConnectivityState) (vs : List Watcher)
    → Present xs vs
    → Present xs (retain (λ v. v.receiving) vs)
unfolding Present
retain-Present xs vs (o, l, q) = (
  retain (λ v. v.receiving) o,
  retain (λ v. v.receiving) l,
  ap (retain (λ v. v.receiving)) q ∙ behind o,
)
  where
    behind :
        (o : List Watcher)
        → retain (λ v. v.receiving) (o ++ record { seen = xs; receiving = true } ∷ l)
          ≡ retain (λ v. v.receiving) o
            ++ record { seen = xs; receiving = true } ∷ retain (λ v. v.receiving) l
    behind [] = refl
    behind (v ∷ o) = go v.receiving (behind o)
      where
        go :
            (b : Bool)
            → retain (λ v. v.receiving) (o ++ record { seen = xs; receiving = true } ∷ l)
              ≡ retain (λ v. v.receiving) o
                ++ record { seen = xs; receiving = true } ∷ retain (λ v. v.receiving) l
            → (if b
                then v ∷ retain (λ v. v.receiving) (o ++ record { seen = xs; receiving = true } ∷ l)
                else retain (λ v. v.receiving) (o ++ record { seen = xs; receiving = true } ∷ l))
              ≡ (if b then v ∷ retain (λ v. v.receiving) o else retain (λ v. v.receiving) o)
                ++ record { seen = xs; receiving = true } ∷ retain (λ v. v.receiving) l
        go true e = ap (λ vs. v ∷ vs) e
        go false e = e

watch-Present :
    (xs : List ConnectivityState) (v : Watcher) (vs : List Watcher)
    → Present xs vs
    → Present xs (vs ++ v ∷ [])
unfolding Present
watch-Present xs v vs (o, l, q) =
    (o, l ++ v ∷ [], ap (λ w. w ++ v ∷ []) q ∙ append_assoc o _ (v ∷ []))

is_state-lasts : (o : Option ConnectivityState) (s : ConnectivityState) → is_state o s ≡ lasts o s
unfolding is_state
is_state-lasts none s = refl
is_state-lasts (some t) s = refl

-- What `set` makes of a change.
abbrev changed : StateWatch → ConnectivityState → StateWatch
changed w s = record {
  state = some s;
  watchers = map (send s) (retain (λ v. v.receiving) w.watchers);
}

acts-Present :
    (as' : List Act) (w : StateWatch) (xs : List ConnectivityState)
    → Present xs w.watchers
    → Stays w.state xs as'
    → Present (xs ++ changes w.state as') (acts w as').watchers
unfolding watch set
acts-Present [] w xs h st = subst (λ y. Present y w.watchers) (sym (append-nil xs)) h
acts-Present (watched ∷ as') w xs h st =
    acts-Present as' (watch w) xs (watch-Present xs _ w.watchers h) st
acts-Present (abandoned gone ∷ as') w xs h (g, st) =
    acts-Present as' (record w { watchers = map (abandon gone) w.watchers }) xs
      (map-Present (abandon gone) xs xs (rw g refl) w.watchers h) st
acts-Present (set_to s ∷ as') w xs h st =
    go (is_state w.state s) (is_state-lasts w.state s) (acts-Present as' w xs h)
      (acts-Present as' (changed w s) (xs ++ s ∷ []) (
        map-Present (send s) xs (xs ++ s ∷ []) (unfold send in refl) _
          (retain-Present xs w.watchers h)))
      st
  where
    go :
        (b : Bool)
        → b ≡ lasts w.state s
        → (Stays w.state xs as' → Present (xs ++ changes w.state as') (acts w as').watchers)
        → (Stays (some s) (xs ++ s ∷ []) as'
            → Present ((xs ++ s ∷ []) ++ changes (some s) as') (acts (changed w s) as').watchers)
        → (if lasts w.state s then Stays w.state xs as' else Stays (some s) (xs ++ s ∷ []) as')
        → Present
            (xs ++ (if lasts w.state s then changes w.state as' else s ∷ changes (some s) as'))
            (acts (if b then w else changed w s) as').watchers
    go true e kept sent st = rw (sym e) (
        kept (
          subst (λ b. if b then Stays w.state xs as' else Stays (some s) (xs ++ s ∷ []) as') (sym e)
            st))
    go false e kept sent st = rw (sym e) (
        subst (λ y. Present y (acts (changed w s) as').watchers)
          (append_assoc xs (s ∷ []) (changes (some s) as'))
          (sent (
            subst (λ b. if b then Stays w.state xs as' else Stays (some s) (xs ++ s ∷ []) as')
              (sym e) st)))

-- Whatever states are set and whenever watchers come and go, what each of the watchers was sent has no
-- two equal states in a row, and ends in the state of the channel, unless nothing was sent; and a
-- watcher that comes after some acts, and whose receiver stays through the acts that follow, is among
-- the watchers at the end, and was sent each change since it came, in order.
pub acts-watchers :
    (before after : List Act)
    → Stays (acts default before).state [] after
    → let now = watch (acts default before) in
      All (Honest (acts now after).state) (acts now after).watchers
      × ((others : List Watcher) × (later : List Watcher) × ((acts now after).watchers
            ≡ others
              ++ record { seen = changes (acts default before).state after; receiving = true }
                ∷ later))
unfolding watch Present
acts-watchers before after st =
    let w = acts default before in
    (
      acts-Honest (watch w) after (act-Honest w watched (acts-Honest default before tt)),
      acts-Present after (watch w) [] (w.watchers, [], refl) st,
    )
