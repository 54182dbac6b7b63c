-- ===== src/Attrs/Accumulator.antt =====
-- Attributes16Accumulator and Attributes32Accumulator of pkg/otel/common/arrow/attributes.go. A
-- pcommon.Map is given as the entries that Range visits, in their order. `max` is the largest
-- value of the group counter, math.MaxUint16 or math.MaxUint32.
use otel_arrow_adapter.Base.{
  ℕ, suc, ◌+◌, ◌-◌, Bool, true, false, ◌||◌, ◌==◌, leb, if◌then◌else◌, Str, str_eq, List, [], ◌∷◌,
  ◌++◌, Option, none, some, length, Result, ok, panic,
}
use otel_arrow_adapter.Attrs.Value.{Value}
use otel_arrow_adapter.Attrs.Sorter.{Attr, Sorter}

pub record Accumulator : Type 0 where
  pub attrs_map_count : ℕ
  pub attrs : List Attr

-- NewAttributes16Accumulator; Reset leaves the same state.
unfoldable pub new_accumulator : Accumulator
new_accumulator = record { attrs_map_count = 0; attrs = [] }

unfoldable pub is_empty : Accumulator → Bool
is_empty c = length c.attrs == 0

-- The entries as attributes of one parent.
unfoldable pub with_parent : ℕ → List (Str × Value) → List Attr
with_parent id [] = []
with_parent id ((k, v) ∷ entries) =
    record { parent_id = id; key = k; value = v } ∷ with_parent id entries

-- The same without the entries whose key is empty.
unfoldable pub with_parent_named : ℕ → List (Str × Value) → List Attr
with_parent_named id [] = []
with_parent_named id (([], v) ∷ entries) = with_parent_named id entries
with_parent_named id ((c ∷ k, v) ∷ entries) =
    record { parent_id = id; key = c ∷ k; value = v } ∷ with_parent_named id entries

-- Attributes16Accumulator.Append: the number of the new group, or `none` for -1. It keeps the
-- entries whose key is empty.
unfoldable pub append : ℕ → Accumulator → List (Str × Value) → Result ⊥ (Accumulator × Option ℕ)
unfolding with_parent
append max c [] = ok (c, none)
append max c (e ∷ entries) =
    if c.attrs_map_count == max
    then panic
    else ok (
      record {
        attrs_map_count = suc c.attrs_map_count;
        attrs = c.attrs ++ with_parent c.attrs_map_count (e ∷ entries);
      },
      some c.attrs_map_count,
    )

-- Attributes16Accumulator.AppendWithID and Attributes32Accumulator.Append.
unfoldable pub append_with_id : ℕ → Accumulator → ℕ → List (Str × Value) → Result ⊥ Accumulator
unfolding with_parent_named
append_with_id max c id [] = ok c
append_with_id max c id (e ∷ entries) =
    if c.attrs_map_count == max
    then panic
    else ok (record {
      attrs_map_count = suc c.attrs_map_count;
      attrs = c.attrs ++ with_parent_named id (e ∷ entries);
    })

unfoldable pub attributes32_append : ℕ → Accumulator → ℕ → List (Str × Value) → Result ⊥ Accumulator
unfolding append_with_id
attributes32_append max c id entries = append_with_id max c id entries

-- A key of the shared attributes, where these are not nil.
is_shared : Option (List Str) → Str → Bool
is_shared none key = false
is_shared (some []) key = false
is_shared (some (k ∷ ks)) key = str_eq k key || is_shared (some ks) key

shared_len : Option (List Str) → ℕ
shared_len none = 0
shared_len (some ks) = length ks

-- The Range of AppendUniqueAttributesWithID. `n` is uniqueAttrsCount, with 0 for what is below 0:
-- Range stops when the count is not positive after an attribute.
unfoldable pub unique_attrs :
    Option (List Str) → Option (List Str) → ℕ → ℕ → List (Str × Value) → List Attr
unfolding is_shared
unique_attrs smattrs mattrs id n [] = []
unique_attrs smattrs mattrs id n (([], v) ∷ entries) = unique_attrs smattrs mattrs id n entries
unique_attrs smattrs mattrs id n ((c ∷ k, v) ∷ entries) =
    elim (is_shared smattrs (c ∷ k) || is_shared mattrs (c ∷ k)) [
      | true ↦ unique_attrs smattrs mattrs id n entries
      | false ↦
          record { parent_id = id; key = c ∷ k; value = v }
          ∷ (elim (leb n 1) [ true ↦ [] | false ↦ unique_attrs smattrs mattrs id (n - 1) entries ])
    ]

unfoldable pub append_unique_attributes_with_id :
    ℕ
    → Accumulator
    → ℕ
    → List (Str × Value)
    → Option (List Str)
    → Option (List Str)
    → Result ⊥ Accumulator
unfolding unique_attrs shared_len
append_unique_attributes_with_id max c id entries smattrs mattrs =
    let shared = shared_len smattrs + shared_len mattrs in
    if length entries == shared
    then ok c
    else if c.attrs_map_count == max
    then panic
    else ok (record {
      attrs_map_count = suc c.attrs_map_count;
      attrs = c.attrs ++ unique_attrs smattrs mattrs id (length entries - shared) entries;
    })

-- Sort, where `sort` is sort.Slice. It also resets the sorter.
unfoldable pub sort_attrs :
    ((Attr → Attr → Bool) → List Attr → List Attr) → Sorter → List Attr → List Attr
sort_attrs sort sorter attrs = elim sorter.less [ none ↦ attrs | some less ↦ sort less attrs ]
