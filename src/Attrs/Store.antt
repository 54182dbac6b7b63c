-- ===== src/Attrs/Store.antt =====
-- Attributes16StoreFrom and Attributes32StoreFrom of pkg/otel/common/otlp/attributes_new.go: an
-- attribute record is read row by row into a map of attributes by parent id. pcommon.Map and
-- common.Deserialize are parameters.
use otel_arrow_adapter.Base.{
  ℕ, zero, suc, false, ◌==◌, Str, pos, List, [], ◌∷◌, Option, none, some, length, get_elem?, Result,
  ok, err, panic, ◌>>=◌, if◌then◌else◌,
}
use otel_arrow_adapter.Attrs.Value.{Value, empty, str, int, double, bool, bytes}
use otel_arrow_adapter.Attrs.Columns.{Columns}
use otel_arrow_adapter.Attrs.Decoder.{ParentIdDecoder, new_parent_id_decoder, decode}

-- `Deserialize` fails.
pub data StoreError : Type 0 where
  bad_cbor : StoreError

-- StringFromRecord and its kin: a null, or an absent column, reads as the zero value.
cell {ℓ} : {A : Type ℓ} → List (Option A) → ℕ → A → A
cell column row d = elim (get_elem? column row) [
  | none ↦ d
  | some c ↦ elim c [ none ↦ d | some v ↦ v ]
]

word_cell : List ℕ → ℕ → ℕ
word_cell column row = elim (get_elem? column row) [ none ↦ 0 | some v ↦ v ]

deserialized : Option Value → Result StoreError Value
deserialized none = err bad_cbor
deserialized (some v) = ok v

-- The `switch` on the row's type; an unknown type leaves the value empty.
unfoldable pub read_value : (List ℕ → Option Value) → Columns → ℕ → ℕ → Result StoreError Value
unfolding cell deserialized
read_value deserialize c ty row =
    if ty == 1
    then ok (str (cell c.strs row []))
    else if ty == 2
    then ok (int (cell c.ints row (pos 0)))
    else if ty == 3
    then ok (double (cell c.doubles row 0))
    else if ty == 4
    then ok (bool (cell c.bools row false))
    else if ty == 7
    then ok (bytes (cell c.binaries row []))
    else if ty == 6
    then deserialized (deserialize (cell c.sers row []))
    else if ty == 5
    then deserialized (deserialize (cell c.sers row []))
    else ok empty

-- What a parent id is mapped to: a pcommon.Map, with NewMap and PutEmpty followed by CopyTo.
pub record MapApi {ℓ} (M : Type ℓ) : Type ℓ where
  pub new_map : M
  pub put : M → Str → Value → M

module _ {ℓ} {M : Type ℓ} (api : MapApi M) where
  -- attributesByID
  unfoldable pub attributes_by_id : List (ℕ × M) → ℕ → Option M
  attributes_by_id [] id = none
  attributes_by_id ((i, m) ∷ rest) id = if i == id then some m else attributes_by_id rest id

  -- The map of the id is made if it is missing, and the attribute is put into it.
  unfoldable pub put_attr : List (ℕ × M) → ℕ → Str → Value → List (ℕ × M)
  put_attr [] id key value = (id, api.put api.new_map key value) ∷ []
  put_attr ((i, m) ∷ rest) id key value =
      if i == id then (i, api.put m key value) ∷ rest else (i, m) ∷ put_attr rest id key value

module _ {ℓ} {M : Type ℓ} (api : MapApi M) (deserialize : List ℕ → Option Value) (m : ℕ) where
  -- Decode the parent id and put the attribute into its map.
  place :
      ParentIdDecoder
      → List (ℕ × M)
      → ℕ
      → Str
      → Value
      → Result StoreError (ParentIdDecoder × List (ℕ × M))
  place d store n key value = elim (decode m d n key value) [
    | none ↦ panic
    | some (id, d') ↦ ok (d', put_attr api store id key value)
  ]

  -- One round of the loop, on row `row`.
  unfoldable pub read_row :
      Columns
      → ℕ
      → ParentIdDecoder
      → List (ℕ × M)
      → Result StoreError (ParentIdDecoder × List (ℕ × M))
  unfolding place cell word_cell
  read_row c row d store =
      let key = cell c.keys row [] in
      read_value deserialize c (word_cell c.types row) row >>= λ value.
      place d store (word_cell c.parent_ids row) key value

  -- The loop, with the number of rows that are left.
  unfoldable pub read_rows :
      Columns → ℕ → ℕ → ParentIdDecoder → List (ℕ × M) → Result StoreError (List (ℕ × M))
  read_rows c zero row d store = ok store
  read_rows c (suc left) row d store =
      read_row c row d store >>= λ next. read_rows c left (suc row) next.0 next.1

  -- Reading a record into a store, whose map holds `store` before.
  unfoldable pub store_from : Columns → List (ℕ × M) → Result StoreError (List (ℕ × M))
  unfolding read_rows
  store_from c store = read_rows c (length c.parent_ids) 0 new_parent_id_decoder store
