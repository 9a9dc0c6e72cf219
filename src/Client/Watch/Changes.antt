-- ===== src/Client/Watch/Changes.antt =====
-- What the watchers of rust/crates/grpc-webnext-client/src/state.rs see.
use grpc_webnext.Prelude.{
  ◌≡◌, ◌≢◌, List, [], ◌∷◌, ◌++◌, Option, none, some, Bool, true, false, All, map, retain,
  if◌then◌else◌, refl, All-append,
}
use grpc_webnext.Client.Watch.{
  ConnectivityState, idle, connecting, ready, transient_failure, same, Watcher, StateWatch, get,
  set, watch, send, is_state,
}

same-eq : (a b : ConnectivityState) → same a b ≡ true → a ≡ b
unfolding same
same-eq idle idle e = refl
same-eq connecting connecting e = refl
same-eq ready ready e = refl
same-eq transient_failure transient_failure e = refl
same-eq idle connecting e = cc
same-eq idle ready e = cc
same-eq idle transient_failure e = cc
same-eq connecting idle e = cc
same-eq connecting ready e = cc
same-eq connecting transient_failure e = cc
same-eq ready idle e = cc
same-eq ready connecting e = cc
same-eq ready transient_failure e = cc
same-eq transient_failure idle e = cc
same-eq transient_failure connecting e = cc
same-eq transient_failure ready e = cc

same_refl : (a : ConnectivityState) → same a a ≡ true
unfolding same
same_refl idle = refl
same_refl connecting = refl
same_refl ready = refl
same_refl transient_failure = refl

pub get-set : (w : StateWatch) (s : ConnectivityState) → get (set w s) ≡ s
unfolding get set is_state
get-set w s = go w.state w.watchers
  where
    after :
        (t : ConnectivityState) (vs : List Watcher) (b : Bool)
        → same t s ≡ b
        → get (
            if b
            then record { state = some t; watchers = vs }
            else record { state = some s; watchers = map (send s) (retain (λ v. v.receiving) vs) })
          ≡ s
    after t vs true e = same-eq t s e
    after t vs false e = refl

    go :
        (o : Option ConnectivityState) (vs : List Watcher)
        → get (set (record { state = o; watchers = vs }) s) ≡ s
    go none vs = refl
    go (some t) vs = after t vs (same t s) refl

-- No two states in a row are the same.
abbrev pub no_repeats : List ConnectivityState → Bool
no_repeats [] = true
no_repeats (a ∷ []) = true
no_repeats (a ∷ b ∷ r) = if same a b then false else no_repeats (b ∷ r)

-- The last state, behind one that is there before.
abbrev pub last_of : Option ConnectivityState → List ConnectivityState → Option ConnectivityState
last_of before [] = before
last_of before (a ∷ r) = last_of (some a) r

-- What a watcher was sent has no repeats, and ends in the state, unless nothing was sent.
abbrev pub Honest : Option ConnectivityState → Watcher → Type 0
Honest now v = (no_repeats v.seen ≡ true) × (last_of now v.seen ≡ now)

no_repeats-append :
    (a : ConnectivityState) (r : List ConnectivityState) (t s : ConnectivityState)
    → no_repeats (a ∷ r) ≡ true
    → last_of (some a) r ≡ some t
    → same t s ≡ false
    → no_repeats (a ∷ (r ++ s ∷ [])) ≡ true
no_repeats-append a [] t s n l d = let e : a ≡ t = cc in rw (e, d) refl
no_repeats-append a (b ∷ r) t s n l d = go (same a b) n (no_repeats-append b r t s)
  where
    go :
        (x : Bool)
        → (if x then false else no_repeats (b ∷ r)) ≡ true
        → (no_repeats (b ∷ r) ≡ true
            → last_of (some b) r ≡ some t
            → same t s ≡ false
            → no_repeats (b ∷ (r ++ s ∷ [])) ≡ true)
        → (if x then false else no_repeats (b ∷ (r ++ s ∷ []))) ≡ true
    go true e ih = cc
    go false e ih = ih e l d

last_of-append :
    (o : Option ConnectivityState) (r : List ConnectivityState) (s : ConnectivityState)
    → last_of o (r ++ s ∷ []) ≡ some s
last_of-append o [] s = refl
last_of-append o (a ∷ r) s = last_of-append (some a) r s

-- A change is sent to a watcher that was told of the state before, or of nothing.
send-Honest :
    (o : Option ConnectivityState) (s : ConnectivityState) (v : Watcher)
    → is_state o s ≡ false
    → Honest o v
    → Honest (some s) (send s v)
unfolding send is_state
send-Honest o s v d (n, l) = (go o v.seen d n l, last_of-append (some s) v.seen s)
  where
    go :
        (p : Option ConnectivityState) (xs : List ConnectivityState)
        → is_state p s ≡ false
        → no_repeats xs ≡ true
        → last_of p xs ≡ p
        → no_repeats (xs ++ s ∷ []) ≡ true
    go p [] e m k = refl
    go none (a ∷ r) e m k = absurd (nonempty (some a) r a refl k)
      where
        nonempty :
            (q : Option ConnectivityState) (r : List ConnectivityState) (a : ConnectivityState)
            → q ≡ some a
            → last_of q r ≢ none
        nonempty q [] a e k = cc
        nonempty q (b ∷ r) a e k = nonempty (some b) r b refl k
    go (some t) (a ∷ r) e m k = no_repeats-append a r t s m k e

All-sent :
    (o : Option ConnectivityState) (s : ConnectivityState) (vs : List Watcher)
    → is_state o s ≡ false
    → All (Honest o) vs
    → All (Honest (some s)) (map (send s) (retain (λ v. v.receiving) vs))
All-sent o s [] d h = tt
All-sent o s (v ∷ vs) d (hv, hvs) = go v.receiving (All-sent o s vs d hvs)
  where
    go :
        (b : Bool)
        → All (Honest (some s)) (map (send s) (retain (λ v. v.receiving) vs))
        → All (Honest (some s)) (
            map
              (send s)
              (if b then v ∷ retain (λ v. v.receiving) vs else retain (λ v. v.receiving) vs))
    go true ih = (send-Honest o s v d hv, ih)
    go false ih = ih

-- A state is set, a watcher comes, or the receivers that a test picks go.
pub data Act : Type 0 where
  set_to : ConnectivityState → Act
  watched : Act
  abandoned : (Watcher → Bool) → Act

abbrev pub abandon : (Watcher → Bool) → Watcher → Watcher
abandon gone v = if gone v then record { seen = v.seen; receiving = false } else v

abbrev pub act : StateWatch → Act → StateWatch
act w (set_to s) = set w s
act w watched = watch w
act w (abandoned gone) = record w { watchers = map (abandon gone) w.watchers }

abbrev pub acts : StateWatch → List Act → StateWatch
acts w [] = w
acts w (a ∷ as') = acts (act w a) as'

All-abandoned :
    (o : Option ConnectivityState) (gone : Watcher → Bool) (vs : List Watcher)
    → All (Honest o) vs
    → All (Honest o) (map (abandon gone) vs)
All-abandoned o gone [] h = tt
All-abandoned o gone (v ∷ vs) (hv, hvs) = (go (gone v), All-abandoned o gone vs hvs)
  where
    go : (b : Bool) → Honest o (if b then record { seen = v.seen; receiving = false } else v)
    go true = hv
    go false = hv

pub act-Honest :
    (w : StateWatch) (a : Act)
    → All (Honest w.state) w.watchers
    → All (Honest (act w a).state) (act w a).watchers
unfolding set watch
act-Honest w (set_to s) h = go (is_state w.state s) refl
  where
    go :
        (b : Bool)
        → is_state w.state s ≡ b
        → let w' : StateWatch = if b then w else record {
          state = some s;
          watchers = map (send s) (retain (λ v. v.receiving) w.watchers);
        } in
          All (Honest w'.state) w'.watchers
    go true e = h
    go false e = All-sent w.state s w.watchers e h
act-Honest w watched h =
    All-append (Honest w.state) w.watchers (record { seen = []; receiving = true } ∷ []) h
      ((refl, refl), tt)
act-Honest w (abandoned gone) h = All-abandoned w.state gone w.watchers h

pub acts-Honest :
    (w : StateWatch) (as' : List Act)
    → All (Honest w.state) w.watchers
    → All (Honest (acts w as').state) (acts w as').watchers
acts-Honest w [] h = h
acts-Honest w (a ∷ as') h = acts-Honest (act w a) as' (act-Honest w a h)
