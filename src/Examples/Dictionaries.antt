-- ===== src/Examples/Dictionaries.antt =====
-- Dictionary fields at concrete cardinalities.
use otel_arrow_adapter.Base.{◌+◌, ◌≤◌, ◌≡◌, refl, inr, none, some, [], ◌∷◌, arith}
use otel_arrow_adapter.Schema.Dictionary.{
  uint8, uint16, Shared, DictionaryField, new_dictionary_field, index_type, set_cardinality,
}
use otel_arrow_adapter.Schema.Dictionary.Updates.{
  IsValid, Outcome, set_cardinality-Outcome, observe, observe-room, room,
}

abbrev quiet : Shared
quiet = record {
  count = 0;
  dictionaries_with_overflow = [];
  dictionaries_index_type_changed = [];
  dictionary_overflow_detected = 0;
  dictionary_index_type_changed = 0;
}

-- A field whose dictionary may grow to 65535 entries.
abbrev field : DictionaryField
field = record {
  path = 97 ∷ [];
  dict_id = 48 ∷ [];
  cumulative_total = 0;
  prev_cumulative_total = 0;
  cardinality = 0;
  index_max_card = 255 ∷ 65535 ∷ [];
  index_types = uint8 ∷ uint16 ∷ [];
  current_index = 0;
}

field_made :
    new_dictionary_field (97 ∷ []) (48 ∷ []) (some (record { min_card = 255; max_card = 65535 }))
    ≡ some field
unfolding new_dictionary_field
field_made = refl

field-IsValid : IsValid field
field-IsValid = record { cards = refl; lengths = refl; in_range = inr (omega arith) }

-- 300 entries need two bytes, and 70000 overflow.
widened_then_lost :
    let (t, s) = observe field quiet (100 ∷ 300 ∷ 70000 ∷ 80000 ∷ []) in
    (index_type t ≡ none) × (s.count ≡ 2) × (s.dictionary_overflow_detected ≡ 1)
unfolding observe set_cardinality index_type
widened_then_lost = (refl, refl, refl)

set_cardinality-Outcome_example :
    Outcome field quiet 300 (set_cardinality field quiet 300).0 (set_cardinality field quiet 300).1
set_cardinality-Outcome_example = set_cardinality-Outcome field quiet 300 field-IsValid

observe-room_example :
    (observe field quiet (100 ∷ 300 ∷ 70000 ∷ [])).1.count ≤ quiet.count + room field
observe-room_example = observe-room field quiet (100 ∷ 300 ∷ 70000 ∷ []) field-IsValid
