-- ===== src/Schema/Refresh.antt =====
-- That a refresh of the reflection never loses a snapshot (rust/crates/grpc-webnext/src/schema.rs).
use grpc_webnext.Prelude.{◌≡◌, List, [], ◌∷◌, Option, some, refl, ◌∙◌}
use grpc_webnext.Transcoding.{Transcoding, current}
use grpc_webnext.Schema.{
  reflected, Load, loaded, load_failed, load_timed_out, swap, refresh, reload, transcoder_any,
  first_snapshot,
}

-- The transcoder of the last load that succeeded, or what was there before.
abbrev pub last_loaded : Option Transcoding → List Load → Option Transcoding
last_loaded before [] = before
last_loaded before (loaded tc ∷ loads) = last_loaded (some tc) loads
last_loaded before (load_failed status ∷ loads) = last_loaded before loads
last_loaded before (load_timed_out ∷ loads) = last_loaded before loads

refresh-last_loaded :
    (before : Option Transcoding) (loads : List Load)
    → refresh before loads ≡ last_loaded before loads
unfolding refresh swap
refresh-last_loaded before [] = refl
refresh-last_loaded before (loaded tc ∷ loads) = refresh-last_loaded (some tc) loads
refresh-last_loaded before (load_failed status ∷ loads) = refresh-last_loaded before loads
refresh-last_loaded before (load_timed_out ∷ loads) = refresh-last_loaded before loads

last_loaded-keeps :
    (tc : Transcoding) (loads : List Load)
    → (tc' : Transcoding) × (last_loaded (some tc) loads ≡ some tc')
last_loaded-keeps tc [] = (tc, refl)
last_loaded-keeps tc (loaded new ∷ loads) = last_loaded-keeps new loads
last_loaded-keeps tc (load_failed status ∷ loads) = last_loaded-keeps tc loads
last_loaded-keeps tc (load_timed_out ∷ loads) = last_loaded-keeps tc loads

-- Once a load of the reflection has succeeded, every later request gets a transcoder without waiting,
-- whichever loads fail behind it, also those that an operator forces.
refresh-available :
    (before : Option Transcoding) (tc : Transcoding) (loads : List Load) (forced : Load)
    → (tc' : Transcoding) × (transcoder_any
          (reload (reflected (refresh before (loaded tc ∷ loads))) forced).0
          []
        ≡ current tc')
unfolding refresh swap reload transcoder_any first_snapshot
refresh-available before tc loads forced =
    let (kept, e) = last_loaded-keeps tc loads in
    let s = refresh-last_loaded (some tc) loads ∙ e in go forced kept s
  where
    go :
        (l : Load) (kept : Transcoding)
        → refresh (some tc) loads ≡ some kept
        → (tc' : Transcoding) × (first_snapshot (swap (refresh (some tc) loads) l ∷ [])
            ≡ current tc')
    go (loaded new) kept s = (new, refl)
    go (load_failed status) kept s = (kept, rw s refl)
    go load_timed_out kept s = (kept, rw s refl)
