-- ===== src/Attrs/Decoder.antt =====
-- The parent id decoders of pkg/otel/common/otlp/attributes_new.go (Attrs16ParentIdDecoder and
-- Attrs32ParentIdDecoder, the same code at the modulus `m`).
use otel_arrow_adapter.Base.{ℕ, [], if◌then◌else◌, Str, str_eq, Option, none, some, add_word}
use otel_arrow_adapter.Attrs.Value.{Value, equal}

-- ParentIdNoEncoding, ParentIdDeltaEncoding, ParentIdDeltaGroupEncoding
pub data Encoding : Type 0 where
  no_encoding delta_encoding delta_group_encoding : Encoding

pub record ParentIdDecoder : Type 0 where
  pub prev_parent_id : ℕ
  pub prev_key : Str
  pub prev_value : Option Value
  pub encoding_type : Encoding

-- NewAttrs16ParentIdDecoder and NewAttrs32ParentIdDecoder
unfoldable pub new_parent_id_decoder : ParentIdDecoder
new_parent_id_decoder = record {
  prev_parent_id = 0;
  prev_key = [];
  prev_value = none;
  encoding_type = delta_group_encoding;
}

-- Decode returns the id and the decoder's next state. `none` is the panic of `Equal` on the nil
-- pointer; it is called only where the keys are equal.
unfoldable pub decode_group : ℕ → ParentIdDecoder → ℕ → Str → Value → Option (ℕ × ParentIdDecoder)
decode_group m d n key value =
    let parent_id = add_word m d.prev_parent_id n in
    let same : Option (ℕ × ParentIdDecoder) =
      some (parent_id, record d { prev_parent_id = parent_id }) in
    let other : Option (ℕ × ParentIdDecoder) =
      some (n, record d { prev_parent_id = n; prev_key = key; prev_value = some value }) in
    if str_eq d.prev_key key
    then elim d.prev_value [ none ↦ none | some prev ↦ if equal prev value then same else other ]
    else other

decode_by : Encoding → ℕ → ParentIdDecoder → ℕ → Str → Value → Option (ℕ × ParentIdDecoder)
unfolding decode_group
decode_by no_encoding m d n key value = some (n, d)
decode_by delta_encoding m d n key value =
    let parent_id = add_word m d.prev_parent_id n in
    some (parent_id, record d { prev_parent_id = parent_id })
decode_by delta_group_encoding m d n key value = decode_group m d n key value

unfoldable pub decode : ℕ → ParentIdDecoder → ℕ → Str → Value → Option (ℕ × ParentIdDecoder)
unfolding decode_by
decode m d n key value = decode_by d.encoding_type m d n key value
