-- ===== src/Examples/Attributes.antt =====
-- Attribute records at concrete attributes.
use mathlib.Core.List.{Permᴰ}
use mathlib.Core.List.Permᴰ
use otel_arrow_adapter.Base.{
  ℕ, ◌≡◌, refl, ◌↔◌, Bool, true, false, Option, none, some, List, [], ◌∷◌, arith, u16_mod, add_word,
  Str, str_eq_refl, pos, ok, panic,
}
use otel_arrow_adapter.Attrs.Value.{
  Value, empty, str, int, bool, equal, type_of, compare_value, is_less, same, below, above,
}
use otel_arrow_adapter.Attrs.Value.Order.{
  compare_value-equal, is_less-compare_value, is_less-compare_bool,
}
use otel_arrow_adapter.Attrs.Sorter.{
  Attr, SorterState, by_nothing, by_key_value_parent_id, encode_group, is_same_key_value,
}
use otel_arrow_adapter.Attrs.Decoder.{decode}
use otel_arrow_adapter.Attrs.Columns.{try_build}
use otel_arrow_adapter.Attrs.Store.{MapApi, attributes_by_id}
use otel_arrow_adapter.Attrs.Rows.{put_all}
use otel_arrow_adapter.Attrs.Grouping.{rows_of, put_rows}
use otel_arrow_adapter.Attrs.ParentIds.{follow, decode-encode_group}
use otel_arrow_adapter.Attrs.RoundTrip.{sorted, written_and_read, written_and_read-ok}
use otel_arrow_adapter.Attrs.Mismatch.{in_order, empty_key_panics, unsorted-misplaced}

-- An insertion sort stands in for sort.Slice.
insert : (Attr → Attr → Bool) → Attr → List Attr → List Attr
insert less a [] = a ∷ []
insert less a (b ∷ attrs) = elim (less a b) [
  | true ↦ a ∷ b ∷ attrs
  | false ↦ b ∷ insert less a attrs
]

insertion_sort : (Attr → Attr → Bool) → List Attr → List Attr
unfolding insert
insertion_sort less [] = []
insertion_sort less (a ∷ attrs) = insert less a (insertion_sort less attrs)

insert-perm :
    (less : Attr → Attr → Bool) (a : Attr) (attrs : List Attr)
    → Permᴰ (insert less a attrs) (a ∷ attrs)
unfolding insert
insert-perm less a [] = Permᴰ.refl _
insert-perm less a (b ∷ attrs) =
    elim (less a b)
      as (λ t.
        Permᴰ
          (elim t as (λ _. List Attr) [ true ↦ a ∷ b ∷ attrs | false ↦ b ∷ insert less a attrs ])
          (a ∷ b ∷ attrs)) [
            | true ↦ Permᴰ.refl _
            | false ↦
                Permᴰ.trans (Permᴰ.cons refl (insert-perm less a attrs)) (Permᴰ.swap refl refl)
          ]

insertion_sort-perm :
    (less : Attr → Attr → Bool) (attrs : List Attr) → Permᴰ (insertion_sort less attrs) attrs
unfolding insertion_sort
insertion_sort-perm less [] = Permᴰ.refl _
insertion_sort-perm less (a ∷ attrs) =
    Permᴰ.trans (insert-perm less a (insertion_sort less attrs))
      (Permᴰ.cons refl (insertion_sort-perm less attrs))

abbrev lists : MapApi (List (Str × Value))
lists = record { new_map = []; put = λ m k v. (k, v) ∷ m }

abbrev no_cbor : Value → Option (List ℕ)
no_cbor v = none

abbrev no_bytes : List ℕ → Option Value
no_bytes b = none

-- Two spans share the attribute k="x"; the second has one more.
abbrev first_attr : Attr
first_attr = record { parent_id = 1; key = 107 ∷ []; value = str (120 ∷ []) }

abbrev second_attr : Attr
second_attr = record { parent_id = 2; key = 107 ∷ []; value = str (120 ∷ []) }

abbrev flags : Attr
flags = record { parent_id = 2; key = 102 ∷ []; value = int (pos 7) }

abbrev attrs : List Attr
attrs = flags ∷ second_attr ∷ first_attr ∷ []

written_and_read-ok_example :
    (store : List (ℕ × List (Str × Value))) × (written_and_read lists no_cbor no_bytes u16_mod
        insertion_sort attrs
      ≡ ok store)
    × ((id : ℕ)
        → attributes_by_id lists store id
          ≡ put_rows lists none (rows_of id (sorted insertion_sort u16_mod attrs)))
    × ((id : ℕ) → Permᴰ (rows_of id (sorted insertion_sort u16_mod attrs)) (rows_of id attrs))
written_and_read-ok_example =
    written_and_read-ok lists no_cbor no_bytes u16_mod insertion_sort insertion_sort-perm attrs
      (tt, (tt, (tt, tt))) (omega arith) ((λ e. cc), ((λ e. cc), ((λ e. cc), tt))) (omega arith)

abbrev seen : SorterState
seen = record { prev_parent_id = 5; prev_key = 107 ∷ []; prev_value = some (str (120 ∷ [])) }

decode-encode_group_example :
    decode u16_mod
      (follow seen)
      (encode_group is_same_key_value u16_mod seen 3 (107 ∷ []) (str (120 ∷ []))).0
      (107 ∷ [])
      (str (120 ∷ []))
    ≡ some (3, follow (encode_group is_same_key_value u16_mod seen 3 (107 ∷ []) (str (120 ∷ []))).1)
decode-encode_group_example =
    decode-encode_group u16_mod seen 3 (107 ∷ []) (str (120 ∷ [])) (omega arith) (omega arith)
      (λ e. cc)

-- A value of the type Empty gets no cells of its own, and the columns differ in length.
empty_value_panics :
    in_order lists no_cbor no_bytes u16_mod by_nothing
      (record { parent_id = 1; key = 107 ∷ []; value = empty } ∷ [])
    ≡ panic
unfolding by_nothing try_build
empty_value_panics = refl

empty_key_panics_example :
    in_order lists no_cbor no_bytes u16_mod
      (by_key_value_parent_id u16_mod)
      (record { parent_id = 0; key = []; value = str (120 ∷ []) } ∷ first_attr ∷ [])
    ≡ panic
empty_key_panics_example =
    empty_key_panics lists no_cbor no_bytes u16_mod (by_key_value_parent_id u16_mod) 0
      (str (120 ∷ [])) (first_attr ∷ []) (tt, (tt, tt))

unsorted-misplaced_example :
    in_order lists no_cbor no_bytes u16_mod by_nothing (first_attr ∷ second_attr ∷ [])
    ≡ ok (
        put_all lists []
          (first_attr ∷ record second_attr { parent_id = add_word u16_mod 1 2 } ∷ []))
unfolding equal
unsorted-misplaced_example =
    unsorted-misplaced lists no_cbor no_bytes u16_mod first_attr second_attr tt tt (λ e. cc) refl
      (str_eq_refl (120 ∷ []))

compare_value-equal_example :
    (compare_value (int (pos 3)) (int (pos 3)) ≡ same) ↔ (equal (int (pos 3)) (int (pos 3)) ≡ true)
compare_value-equal_example = compare_value-equal (int (pos 3)) (int (pos 3)) refl

is_less-compare_value_example :
    (is_less (int (pos 3)) (int (pos 4)) ≡ true)
    ↔ (compare_value (int (pos 3)) (int (pos 4)) ≡ below)
unfolding type_of
is_less-compare_value_example = is_less-compare_value (int (pos 3)) (int (pos 4)) refl (omega arith)

is_less-compare_bool_example :
    (is_less (bool true) (bool false) ≡ true) ↔ (compare_value (bool true) (bool false) ≡ above)
is_less-compare_bool_example = is_less-compare_bool true false
