-- ===== src/HttpRule/Match/Fits.antt =====
-- A declarative reading of path templates, and the matcher of
-- rust/crates/grpc-webnext/src/httprule.rs against it.
pub mod Took
pub mod Sound
pub mod Complete
use grpc_webnext.Prelude.{◌≡◌, List, [], ◌∷◌, ◌++◌, Bytes, codes}
use grpc_webnext.Text.Str.{join}
use grpc_webnext.Text.Percent.{ok}
use grpc_webnext.HttpRule.Template.{
  Segment, Segments, literal, any_one, any_rest, capture, nil, cons,
}
use grpc_webnext.HttpRule.Match.{PathVar, decode_all}

-- A pattern, the path components that it stands for, and what is captured: a literal stands for
-- itself, `*` for any one component, `**` for any components, and a capture for what its
-- sub-pattern stands for, whose decoded components joined by `/` are the value.
mutual
  pub data Fits : Segments → List Bytes → List PathVar → Type 0 where
    fits_nil : Fits nil [] []
    fits_cons :
        {s : Segment} {ss : Segments} {ps a b : List Bytes} {vs u w : List PathVar}
        → FitsOne s a u
        → Fits ss b w
        → ps ≡ a ++ b
        → vs ≡ u ++ w
        → Fits (cons s ss) ps vs

  pub data FitsOne : Segment → List Bytes → List PathVar → Type 0 where
    fits_literal : (l : Bytes) → FitsOne (literal l) (l ∷ []) []
    fits_one : (p : Bytes) → FitsOne any_one (p ∷ []) []
    fits_rest : (ps : List Bytes) → FitsOne any_rest ps []
    fits_capture :
        {field : List Bytes} {subs : Segments} {ps values : List Bytes} {u vs : List PathVar}
        → Fits subs ps u
        → decode_all ps ≡ ok values
        → vs ≡ u ++ (field, join (codes "/") values) ∷ []
        → FitsOne (capture field subs) ps vs
