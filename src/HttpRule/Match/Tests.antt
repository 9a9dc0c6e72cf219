-- ===== src/HttpRule/Match/Tests.antt =====
-- Runs of the matcher, from the tests of rust/crates/grpc-webnext/src/httprule.rs.
use grpc_webnext.Prelude.{◌≡◌, [], ◌∷◌, none, some, Bytes, Option, List, refl, codes}
use grpc_webnext.Text.Percent.{Outcome, ok, percent_decode, decode_loop, escape}
use grpc_webnext.Text.Utf8.{from_utf8_lossy}
use grpc_webnext.HttpRule.Template.{parse_template}
use grpc_webnext.HttpRule.Match.{
  PathVar, match_segments, match_parts, match_list, strip_verb, path_parts, head_and_verb, whole,
  bind_capture, decode_all, part_is,
}

route : Bytes → Bytes → Outcome (Option (List PathVar))
route template path =
    let (segments, verb) = parse_template template in match_segments segments verb path

custom_verb :
    route (codes "/v1/things/{id}:cancel") (codes "/v1/things/5:cancel")
    ≡ ok (some ((codes "id" ∷ [], codes "5") ∷ []))
unfolding route parse_template match_segments match_parts match_list strip_verb path_parts
    percent_decode decode_loop escape head_and_verb whole bind_capture decode_all part_is
    from_utf8_lossy
custom_verb = refl

other_verb : route (codes "/v1/things/{id}") (codes "/v1/things/5:cancel") ≡ ok none
unfolding route parse_template match_segments match_parts match_list strip_verb path_parts
    percent_decode decode_loop escape head_and_verb whole bind_capture decode_all part_is
other_verb = refl
