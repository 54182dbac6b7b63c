-- ===== src/Attrs/Sorter.antt =====
-- The sorters of attributes_16.go and attributes_32.go (pkg/otel/common/arrow): the order of the
-- rows and the encoding of the parent ids. `m` is the modulus of the parent id, 2^16 or 2^32; both
-- files hold the same code.
use otel_arrow_adapter.Base.{
  ℕ, Bool, true, false, ◌&&◌, if◌then◌else◌, ltb, ◌==◌, Str, str_eq, str_lt, [], Option, none, some,
  u16_mod, u32_mod, sub_word,
}
use otel_arrow_adapter.Attrs.Value.{
  Value, Cmp, below, same, above, type_of, equal, is_less, compare_value,
}

-- Attr16 and Attr32
pub record Attr : Type 0 where
  pub parent_id : ℕ
  pub key : Str
  pub value : Value

-- What the sorters remember of the rows before; a sorter uses the fields that its struct has.
-- `none` is the nil pointer.
pub record SorterState : Type 0 where
  pub prev_parent_id : ℕ
  pub prev_key : Str
  pub prev_value : Option Value

-- The Reset methods.
unfoldable pub reset : SorterState
reset = record { prev_parent_id = 0; prev_key = []; prev_value = none }

-- The interface Attrs16Sorter (Attrs32Sorter). `less` is the closure given to sort.Slice, and
-- `none` where Sort does nothing; `encode` returns the number written and the new state.
pub record Sorter : Type 0 where
  pub less : Option (Attr → Attr → Bool)
  pub encode : SorterState → ℕ → Str → Value → ℕ × SorterState

-- Attrs16ByNothing
unfoldable pub encode_nothing : SorterState → ℕ → Str → Value → ℕ × SorterState
encode_nothing s parent_id key value = (parent_id, s)

unfoldable pub by_nothing : Sorter
by_nothing = record { less = none; encode = encode_nothing }

-- Attrs16ByParentIdKeyValue
unfoldable pub less_parent_id_key_value : Attr → Attr → Bool
less_parent_id_key_value a b =
    if a.parent_id == b.parent_id
    then (if str_eq a.key b.key then is_less a.value b.value else str_lt a.key b.key)
    else ltb a.parent_id b.parent_id

unfoldable pub encode_delta : ℕ → SorterState → ℕ → Str → Value → ℕ × SorterState
encode_delta m s parent_id key value =
    (sub_word m parent_id s.prev_parent_id, record s { prev_parent_id = parent_id })

unfoldable pub by_parent_id_key_value : ℕ → Sorter
by_parent_id_key_value m = record { less = some less_parent_id_key_value; encode = encode_delta m }

-- The Encode method that the grouping sorters share: a delta inside a group, else the id itself.
unfoldable pub encode_group :
    (SorterState → Value → Str → Value → Bool) → ℕ → SorterState → ℕ → Str → Value → ℕ × SorterState
encode_group is_same_group m s parent_id key value =
    let fresh : SorterState = record {
      prev_parent_id = parent_id;
      prev_key = key;
      prev_value = some value;
    } in
    elim s.prev_value [
      | none ↦ (parent_id, fresh)
      | some prev ↦
          if is_same_group s prev key value
          then (sub_word m parent_id s.prev_parent_id, record s { prev_parent_id = parent_id })
          else (parent_id, fresh)
    ]

-- Attrs32ByTypeParentIdKeyValue, which has no previous key.
unfoldable pub less_type_parent_id_key_value : Attr → Attr → Bool
less_type_parent_id_key_value a b =
    if type_of a.value == type_of b.value
    then (if a.parent_id == b.parent_id
        then (if str_eq a.key b.key then is_less a.value b.value else str_lt a.key b.key)
        else ltb a.parent_id b.parent_id)
    else ltb (type_of a.value) (type_of b.value)

unfoldable pub is_same_type : SorterState → Value → Str → Value → Bool
is_same_type s prev key value = type_of prev == type_of value

unfoldable pub by_type_parent_id_key_value : Sorter
by_type_parent_id_key_value = record {
  less = some less_type_parent_id_key_value;
  encode = encode_group is_same_type u32_mod;
}

-- Attrs16ByKeyParentIdValue
unfoldable pub less_key_parent_id_value : Attr → Attr → Bool
less_key_parent_id_value a b =
    if type_of a.value == type_of b.value
    then (if str_eq a.key b.key
        then (if a.parent_id == b.parent_id
            then is_less a.value b.value
            else ltb a.parent_id b.parent_id)
        else str_lt a.key b.key)
    else ltb (type_of a.value) (type_of b.value)

unfoldable pub is_same_type_key : SorterState → Value → Str → Value → Bool
is_same_type_key s prev key value = type_of prev == type_of value && str_eq s.prev_key key

unfoldable pub by_key_parent_id_value : ℕ → Sorter
by_key_parent_id_value m = record {
  less = some less_key_parent_id_value;
  encode = encode_group is_same_type_key m;
}

-- Attrs16ByKeyValueParentId
less_by_cmp : Cmp → ℕ → ℕ → Bool
less_by_cmp same a b = ltb a b
less_by_cmp below a b = true
less_by_cmp above a b = false

unfoldable pub less_key_value_parent_id : Attr → Attr → Bool
unfolding less_by_cmp
less_key_value_parent_id a b =
    if type_of a.value == type_of b.value
    then (if str_eq a.key b.key
        then less_by_cmp (compare_value a.value b.value) a.parent_id b.parent_id
        else str_lt a.key b.key)
    else ltb (type_of a.value) (type_of b.value)

unfoldable pub is_same_key_value : SorterState → Value → Str → Value → Bool
is_same_key_value s prev key value = str_eq s.prev_key key && equal prev value

unfoldable pub by_key_value_parent_id : ℕ → Sorter
by_key_value_parent_id m = record {
  less = some less_key_value_parent_id;
  encode = encode_group is_same_key_value m;
}

-- The sorters of attributes_32.go that have a twin in attributes_16.go.
unfoldable pub attrs32_by_key_parent_id_value : Sorter
unfolding by_key_parent_id_value
attrs32_by_key_parent_id_value = by_key_parent_id_value u32_mod

unfoldable pub attrs32_by_key_value_parent_id : Sorter
unfolding by_key_value_parent_id
attrs32_by_key_value_parent_id = by_key_value_parent_id u32_mod

unfoldable pub attrs16_by_key_value_parent_id : Sorter
unfolding by_key_value_parent_id
attrs16_by_key_value_parent_id = by_key_value_parent_id u16_mod
