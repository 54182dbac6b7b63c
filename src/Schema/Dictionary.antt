-- ===== src/Schema/Dictionary.antt =====
-- pkg/otel/common/schema: config/dictionary.go, update/schema_update_request.go,
-- events/counters.go and transform/dictionary.go. The pointers that a DictionaryField shares with
-- its record builder (update request, events, stats) are a record that is passed along.
pub mod Search
pub mod Updates
use otel_arrow_adapter.Base.{
  ℕ, suc, ◌+◌, ◌-◌, ◌%◌, if◌then◌else◌, ltb, leb, ◌==◌, Str, List, [], ◌∷◌, Option, none, some,
  length, get_or, get_elem?, take, drop, u64_mod,
}

pub data IndexType : Type 0 where
  uint8 uint16 uint32 uint64 : IndexType

abbrev pub all_index_types : List IndexType
all_index_types = uint8 ∷ uint16 ∷ uint32 ∷ uint64 ∷ []

abbrev pub max_uint8 : ℕ
max_uint8 = 255

abbrev pub max_uint16 : ℕ
max_uint16 = 65535

abbrev pub max_uint32 : ℕ
max_uint32 = 4294967295

abbrev pub max_uint64 : ℕ
max_uint64 = 18446744073709551615

abbrev pub all_index_max_card : List ℕ
all_index_max_card = max_uint8 ∷ max_uint16 ∷ max_uint32 ∷ max_uint64 ∷ []

-- config.Dictionary
pub record Dictionary : Type 0 where
  pub min_card : ℕ
  pub max_card : ℕ

unfoldable pub new_dictionary : ℕ → Dictionary
new_dictionary max = record {
  min_card = if ltb max max_uint8 then max else max_uint8;
  max_card = max;
}

unfoldable pub new_dictionary_from : ℕ → Dictionary → Dictionary
new_dictionary_from min proto = record {
  min_card = if ltb proto.max_card min then proto.max_card else min;
  max_card = proto.max_card;
}

-- What a field shares with its record builder: SchemaUpdateRequest.count, the two maps of Events
-- (as the list of the assignments made, newest first), and two counters of RecordBuilderStats.
pub record Shared : Type 0 where
  pub count : ℕ
  pub dictionaries_with_overflow : List Str
  pub dictionaries_index_type_changed : List (Str × IndexType)
  pub dictionary_overflow_detected : ℕ
  pub dictionary_index_type_changed : ℕ

-- SchemaUpdateRequest.Inc and Reset
unfoldable pub inc : Shared → Shared
inc s = record s { count = s.count + 1 }

unfoldable pub reset : Shared → Shared
reset s = record s { count = 0 }

-- `index_types` and `index_max_card` are nil exactly when they are empty here: `init_indices`
-- makes no empty slice that is not nil.
pub record DictionaryField : Type 0 where
  pub path : Str
  pub dict_id : Str
  pub cumulative_total : ℕ
  pub prev_cumulative_total : ℕ
  pub cardinality : ℕ
  pub index_max_card : List ℕ
  pub index_types : List IndexType
  pub current_index : ℕ

unfoldable pub find_index : ℕ → ℕ
find_index card =
    if leb card max_uint8
    then 0
    else if leb card max_uint16
    then 1
    else if leb card max_uint32
    then 2
    else 3

-- `xs[find_index(min) : find_index(max) + 1]`; `none` is the panic on `min > max`.
unfoldable pub index_range {ℓ} : {A : Type ℓ} → List A → ℕ → ℕ → Option (List A)
unfolding find_index
index_range xs min max =
    if ltb max min
    then none
    else some (take (find_index max + 1 - find_index min) (drop (find_index min) xs))

-- initIndices. `none` as a configuration is the nil pointer, as a result the panic.
unfoldable pub init_indices : DictionaryField → Option Dictionary → Option DictionaryField
unfolding index_range
init_indices t none = some (record t { index_types = []; index_max_card = []; current_index = 0 })
init_indices t (some config) =
    let cleared = record t { index_types = []; index_max_card = []; current_index = 0 } in
    if config.max_card == 0
    then some cleared
    else elim (index_range all_index_types config.min_card config.max_card) [
      | none ↦ none
      | some types ↦ elim (index_range all_index_max_card config.min_card config.max_card) [
        | none ↦ none
        | some cards ↦
            some (record t { index_types = types; index_max_card = cards; current_index = 0 })
      ]
    ]

unfoldable pub new_dictionary_field : Str → Str → Option Dictionary → Option DictionaryField
unfolding init_indices
new_dictionary_field path dict_id config =
    init_indices
      (record {
        path = path;
        dict_id = dict_id;
        cumulative_total = 0;
        prev_cumulative_total = 0;
        cardinality = 0;
        index_max_card = [];
        index_types = [];
        current_index = 0;
      })
      config

unfoldable pub revert_counters : DictionaryField → DictionaryField
revert_counters t = record t { cumulative_total = t.prev_cumulative_total }

-- The cumulative total is a uint64.
unfoldable pub add_total : DictionaryField → ℕ → DictionaryField
add_total t total = record t {
  prev_cumulative_total = t.cumulative_total;
  cumulative_total = (t.cumulative_total + total) % u64_mod;
}

-- IndexType: `none` is nil, and an index out of range, which the invariant excludes.
unfoldable pub index_type : DictionaryField → Option IndexType
index_type t = get_elem? t.index_types t.current_index

-- The loop of updateIndexType, over the entries of `index_max_card` that are left.
unfoldable pub advance : ℕ → List ℕ → ℕ → ℕ
advance card [] i = i
advance card (max ∷ maxs) i =
    let next = advance card maxs (suc i) in if ltb max card then next else i

unfoldable pub update_index_type : DictionaryField → Shared → DictionaryField × Shared
unfolding advance inc
update_index_type t s = elim t.index_types [
  | [] ↦ (t, s)
  | first ∷ others ↦
      let i = advance t.cardinality (drop t.current_index t.index_max_card) t.current_index in
      if leb (length t.index_types) i
      then (
        record t { index_types = []; index_max_card = []; current_index = 0 },
        record (inc s) {
          dictionaries_with_overflow = t.path ∷ s.dictionaries_with_overflow;
          dictionary_overflow_detected = s.dictionary_overflow_detected + 1;
        },
      )
      else if i == t.current_index
      then (t, s)
      else (
        record t { current_index = i },
        record (inc s) {
          dictionaries_index_type_changed =
              (t.path, get_or t.index_types i uint8) ∷ s.dictionaries_index_type_changed;
          dictionary_index_type_changed = s.dictionary_index_type_changed + 1;
        },
      )
]

unfoldable pub set_cardinality : DictionaryField → Shared → ℕ → DictionaryField × Shared
unfolding update_index_type
set_cardinality t s card = update_index_type (record t { cardinality = card }) s
