-- ===== src/HttpRule/Build/Precedence.antt =====
-- What a query says of a field that the path has set (`build_message` of
-- rust/crates/grpc-webnext/src/httprule.rs).
use grpc_webnext.Prelude.{
  ◌≡◌, List, [], ◌∷◌, some, str_eq, str_eq_refl, false, Bytes, refl, ap, ◌∙◌,
}
use grpc_webnext.Text.Str.{split}
use grpc_webnext.HttpRule.Match.{PathVar}
use grpc_webnext.HttpRule.Router.{Binding, no_body}
use grpc_webnext.HttpRule.Message.{
  bound, string, Reflection, field_by_any_name, coerce, coerce_as, set_last, put_value, set_by_path,
}
use grpc_webnext.HttpRule.Build.{
  parse_query, is_captured, same_path, bind_query, bind_rest, bind_vars, start_message,
  build_message,
}

module _ (r : Reflection) where
  open r use {Message, Descriptor, Field}

  -- A name without dots that stands for a text field sets the field.
  set_text :
      (msg : Message) (f : Field) (name raw : Bytes)
      → field_by_any_name r (r.descriptor msg) name ≡ some f
      → r.kind f ≡ string
      → r.is_list f ≡ false
      → set_by_path r msg (name ∷ []) raw ≡ bound (r.set_field msg f (r.string_value raw))
  unfolding set_by_path set_last put_value coerce coerce_as
  set_text msg f name raw e k l =
      rw (set_by_path, e) (rw (set_last, k) (rw (put_value, coerce, k) (rw l refl)))

  -- If setting a field leaves a message's descriptor, a binding has no body, two names without dots both
  -- stand for one text field of the input, and the path has set it by the first name, then a
  -- parameter of the query with the first name is passed over, and the field keeps the value of the
  -- path; but one with the second name is not, and the field is set again, to the value of the query.
  pub build_message-names :
      ((d : Descriptor) → r.descriptor (r.new d) ≡ d)
      → ((m : Message) (f : Field) (v : r.Value)
          → r.descriptor (r.set_field m f v) ≡ r.descriptor m)
      → (binding : Binding) (input : Descriptor) (f : Field)
        (name alias value other body by_name by_alias : Bytes)
      → binding.body ≡ no_body
      → field_by_any_name r input name ≡ some f
      → field_by_any_name r input alias ≡ some f
      → r.kind f ≡ string
      → r.is_list f ≡ false
      → split b'.' name ≡ name ∷ []
      → split b'.' alias ≡ alias ∷ []
      → str_eq name alias ≡ false
      → parse_query by_name ≡ bound ((name, other) ∷ [])
      → parse_query by_alias ≡ bound ((alias, other) ∷ [])
      → let vars : List PathVar = (name ∷ [], value) ∷ [] in
        let from_path = r.set_field (r.new input) f (r.string_value value) in
        (build_message r binding input vars (some by_name) body ≡ bound (r.encode_to_vec from_path))
        × (build_message r binding input vars (some by_alias) body
            ≡ bound (r.encode_to_vec (r.set_field from_path f (r.string_value other))))
  unfolding build_message start_message bind_vars bind_rest bind_query is_captured same_path
  build_message-names new_law set_law binding input f name alias value other body by_name by_alias
        eb en ea k l sn sa ne qn qa =
      let start = r.new input in
      let from_path = r.set_field start f (r.string_value value) in
      let set_name : set_by_path r start (name ∷ []) value ≡ bound from_path =
        set_text start f name value (ap (λ d. field_by_any_name r d name) (new_law input) ∙ en) k
          l in
      let set_alias : set_by_path r from_path (alias ∷ []) other
          ≡ bound (r.set_field from_path f (r.string_value other)) =
        set_text from_path f alias other
          (ap (λ d. field_by_any_name r d alias) (set_law start f _ ∙ new_law input) ∙ ea) k l in
      (
        rw eb (rw set_name (rw qn (rw sn (rw (str_eq_refl name) refl)))),
        rw eb (rw set_name (rw qa (rw sa (rw ne (rw set_alias refl))))),
      )
