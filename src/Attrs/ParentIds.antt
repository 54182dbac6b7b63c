-- ===== src/Attrs/ParentIds.antt =====
-- The decoder of attributes_new.go next to the sorter by key, value and parent id of
-- attributes_16.go.
use otel_arrow_adapter.Base.{
  ℕ, ◌<◌, ◌≡◌, refl, ◌≢◌, false, str_eq, none, some, Str, arith, add_word-sub_word,
}
use otel_arrow_adapter.Attrs.Value.{Value}
use otel_arrow_adapter.Attrs.Sorter.{SorterState, reset, encode_group, is_same_key_value}
use otel_arrow_adapter.Attrs.Decoder.{
  ParentIdDecoder, delta_group_encoding, new_parent_id_decoder, decode,
}

-- The decoder that has seen the same rows as the encoder.
abbrev pub follow : SorterState → ParentIdDecoder
follow e = record {
  prev_parent_id = e.prev_parent_id;
  prev_key = e.prev_key;
  prev_value = e.prev_value;
  encoding_type = delta_group_encoding;
}

pub follow-reset : follow reset ≡ new_parent_id_decoder
unfolding reset new_parent_id_decoder
follow-reset = refl

-- A decoder that has seen no row compares no value with the nil pointer.
abbrev pub IsStarted : SorterState → Str → Type 0
IsStarted e key = e.prev_value ≡ none → str_eq e.prev_key key ≡ false

-- One row of the sorter by key, value and parent id: from a state in which the encoder has seen a
-- row or the row's key is not empty, the decoder that follows the encoder returns the parent id of
-- the row, a word, and follows the encoder after it.
pub decode-encode_group :
    (m : ℕ) (e : SorterState) (parent_id : ℕ) (key : Str) (value : Value)
    → parent_id < m
    → e.prev_parent_id < m
    → IsStarted e key
    → decode m (follow e) (encode_group is_same_key_value m e parent_id key value).0 key value
      ≡ some (parent_id, follow (encode_group is_same_key_value m e parent_id key value).1)
unfolding decode encode_group is_same_key_value
decode-encode_group m e parent_id key value h k s =
    ground (arith, add_word-sub_word m parent_id e.prev_parent_id)

-- After a row the encoder is started, and its previous id is the row's.
pub encode_group-IsStarted :
    (m : ℕ) (e : SorterState) (parent_id : ℕ) (key : Str) (value : Value)
    → let e' = (encode_group is_same_key_value m e parent_id key value).1 in
      (e'.prev_value ≢ none) × (e'.prev_parent_id ≡ parent_id)
unfolding encode_group is_same_key_value
encode_group-IsStarted m e parent_id key value = (λ h. ground arith, ground arith)
