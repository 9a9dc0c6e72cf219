-- ===== src/Examples/Routes.antt =====
-- Routing at a concrete input.
use grpc_webnext.Prelude.{
  none, if◌then◌else◌, str_eq, ◌≡◌, List, [], ◌∷◌, Option, some, Bytes, codes, All, refl, arith,
}
use grpc_webnext.Text.Str.{to_ascii_uppercase, join}
use grpc_webnext.Text.Utf8.{from_utf8_lossy}
use grpc_webnext.Text.Percent.{ok, percent_decode, decode_loop, escape}
use grpc_webnext.Text.Percent.Faults.{IsAscii}
use grpc_webnext.HttpRule.Template.{Segments, literal, any_rest, capture, nil, cons}
use grpc_webnext.HttpRule.Match.{
  PathVar, match_segments, match_parts, match_list, strip_verb, path_parts, head_and_verb, whole,
  bind_capture, decode_all, part_is,
}
use grpc_webnext.HttpRule.Match.Fits.{
  Fits, fits_nil, fits_cons, fits_literal, fits_rest, fits_capture,
}
use grpc_webnext.HttpRule.Match.Fits.Sound.{match_parts_sound}
use grpc_webnext.HttpRule.Match.Fits.Complete.{match_parts_complete, RestLast, RestLastOne, is_nil}
use grpc_webnext.HttpRule.Router.{Binding, wildcard, match_request, find, accepts, or_next}
use grpc_webnext.HttpRule.Router.Compile.{Reflect}
use grpc_webnext.HttpRule.Router.First.{First, Serves, match_request-First, match_request_total}

-- `/v1/{name=**}`.
abbrev files : Segments
files = cons (literal (codes "v1")) (cons (capture (codes "name" ∷ []) (cons any_rest nil)) nil)

abbrev file_vars : List PathVar
file_vars = (codes "name" ∷ [], codes "a/b") ∷ []

abbrev parts : List Bytes
parts = codes "v1" ∷ codes "a" ∷ codes "b" ∷ []

match_parts_sound_example : Fits files parts file_vars
unfolding match_parts match_list whole bind_capture decode_all part_is percent_decode decode_loop
    escape from_utf8_lossy join
match_parts_sound_example = match_parts_sound files parts file_vars refl

files_fit : Fits files parts file_vars
unfolding decode_all percent_decode decode_loop escape from_utf8_lossy join
files_fit =
    fits_cons (fits_literal (codes "v1"))
      (fits_cons
        (fits_capture (fits_cons (fits_rest (codes "a" ∷ codes "b" ∷ [])) fits_nil refl refl) refl
          refl)
        fits_nil refl refl)
      refl refl

match_parts_complete_example : match_parts files parts ≡ ok (some file_vars)
unfolding RestLast RestLastOne is_nil
match_parts_complete_example =
    match_parts_complete files parts file_vars (tt, ((refl, tt), tt)) files_fit

-- A binding for `POST`, then one for every method.
abbrev routes : List Binding
routes =
    record {
      http_method = codes "POST";
      segments = files;
      custom_verb = [];
      body = wildcard;
      response_body = [];
      grpc_method = codes "/S/Put";
    }
    ∷ record {
      http_method = codes "*";
      segments = files;
      custom_verb = [];
      body = wildcard;
      response_body = [];
      grpc_method = codes "/S/Get";
    }
    ∷ []

abbrev any_route : Binding
any_route = record {
  http_method = codes "*";
  segments = files;
  custom_verb = [];
  body = wildcard;
  response_body = [];
  grpc_method = codes "/S/Get";
}

match_request-First_example :
    First
      (Serves (to_ascii_uppercase (codes "get")))
      (λ b. ¬ Serves (to_ascii_uppercase (codes "get")) b)
      (codes "/v1/a/b")
      routes
      (some (any_route, file_vars))
unfolding match_request find accepts or_next match_segments match_parts match_list strip_verb
    path_parts head_and_verb whole bind_capture decode_all part_is percent_decode decode_loop escape
    from_utf8_lossy to_ascii_uppercase join
match_request-First_example =
    match_request-First routes (codes "get") (codes "/v1/a/b") (some (any_route, file_vars)) refl

short_path : All IsAscii (codes "/v1/a")
short_path = (omega arith, (omega arith, (omega arith, (omega arith, (omega arith, tt)))))

match_request_total_example :
    (r : Option (Binding × List PathVar)) × (match_request routes (codes "get") (codes "/v1/a")
      ≡ ok r)
match_request_total_example = match_request_total routes (codes "get") (codes "/v1/a") short_path

-- An annotation `get: "/v1/{id}"`: a rule is the text of its path, and it has no other fields.
abbrev gets : Reflect
gets = record {
  Message = Bytes;
  str_field = λ m name. if str_eq name (codes "get") then some m else none;
  message_field = λ m name. none;
  list_field = λ m name. [];
}
