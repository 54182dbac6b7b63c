-- ===== src/Attrs/Mismatch.antt =====
-- The reader of attribute records (pkg/otel/common/otlp/attributes_new.go) after an empty key, and
-- after the sorter that does nothing.
use otel_arrow_adapter.Base.{
  ℕ, ◌≡◌, refl, ◌∙◌, ◌≢◌, true, Option, none, some, List, [], ◌∷◌, length, add_word, str_eq_refl,
  str_eq-nil, Result, ok, panic, ◌>>=◌,
}
use otel_arrow_adapter.Attrs.Value.{Value, equal}
use otel_arrow_adapter.Attrs.Sorter.{Attr, Sorter, reset, by_nothing, encode_nothing}
use otel_arrow_adapter.Attrs.Decoder.{ParentIdDecoder, new_parent_id_decoder, decode}
use otel_arrow_adapter.Attrs.Columns.{append_attrs, try_build}
use otel_arrow_adapter.Attrs.Store.{MapApi, StoreError, put_attr, store_from, read_rows}
use otel_arrow_adapter.Attrs.Rows.{
  IsCarried, All, put_all, read_row-first, read_row-panic, read_rows-add_row,
}
use otel_arrow_adapter.Attrs.RoundTrip.{try_build-ok, append_attrs-HasRows}

module _ {ℓ} {M : Type ℓ} (api : MapApi M) (serialize : Value → Option (List ℕ))
    (deserialize : List ℕ → Option Value) (m : ℕ) where
  -- Writing the attributes in the given order, and reading the record into an empty store.
  abbrev pub in_order : Sorter → List Attr → Result StoreError (List (ℕ × M))
  in_order sorter attrs =
      try_build serialize sorter attrs >>= λ c. store_from api deserialize m c []

  in_order-read_rows :
      (sorter : Sorter) (attrs : List Attr)
      → All (λ a. IsCarried serialize deserialize a.value) attrs
      → in_order sorter attrs
        ≡ read_rows api deserialize m
            (append_attrs serialize sorter reset attrs)
            (length attrs)
            0
            new_parent_id_decoder
            []
  unfolding store_from
  in_order-read_rows sorter attrs h =
      rw (try_build-ok serialize deserialize sorter attrs h)
        (rw ((append_attrs-HasRows serialize deserialize sorter reset attrs h).parent_ids) refl)

  decode-empty_key : (n : ℕ) (value : Value) → decode m new_parent_id_decoder n [] value ≡ none
  unfolding decode new_parent_id_decoder
  decode-empty_key n value = rw (str_eq_refl [])

  -- A record that has all cells and whose first row has the empty key makes the reader panic, under
  -- every sorter.
  pub empty_key_panics :
      (sorter : Sorter) (id : ℕ) (value : Value) (attrs : List Attr)
      → All
          (λ a. IsCarried serialize deserialize a.value)
          (record { parent_id = id; key = []; value = value } ∷ attrs)
      → in_order sorter (record { parent_id = id; key = []; value = value } ∷ attrs) ≡ panic
  unfolding read_rows append_attrs
  empty_key_panics sorter id value attrs h =
      let first : Attr = record { parent_id = id; key = []; value = value } in
      let n = (sorter.encode reset id [] value).0 in
      let rest = append_attrs serialize sorter (sorter.encode reset id [] value).1 attrs in
      in_order-read_rows sorter (first ∷ attrs) h
      ∙ rw
          (read_row-panic api serialize deserialize m n [] value rest new_parent_id_decoder [] h.0
            (decode-empty_key n value))
          refl

  decode-second :
      (a b : Attr)
      → a.key ≢ []
      → b.key ≡ a.key
      → equal a.value b.value ≡ true
      → (d : ParentIdDecoder) × (decode m new_parent_id_decoder a.parent_id a.key a.value
          ≡ some (a.parent_id, d))
        × (d' : ParentIdDecoder) × (decode m d b.parent_id b.key b.value
            ≡ some (add_word m a.parent_id b.parent_id, d'))
  unfolding decode new_parent_id_decoder
  decode-second a b named same_key same_value =
      let d : ParentIdDecoder = record new_parent_id_decoder {
        prev_parent_id = a.parent_id;
        prev_key = a.key;
        prev_value = some a.value;
      } in
      (
        d,
        rw (str_eq-nil a.key named),
        record d { prev_parent_id = add_word m a.parent_id b.parent_id },
        rw (same_key, str_eq_refl, same_value),
      )

  -- Without sorting, the second of two attributes with one key, which is not empty, and equal values
  -- that a record can hold is put under the sum of both parent ids.
  pub unsorted-misplaced :
      (a b : Attr)
      → IsCarried serialize deserialize a.value
      → IsCarried serialize deserialize b.value
      → a.key ≢ []
      → b.key ≡ a.key
      → equal a.value b.value ≡ true
      → in_order by_nothing (a ∷ b ∷ [])
        ≡ ok (put_all api [] (a ∷ record b { parent_id = add_word m a.parent_id b.parent_id } ∷ []))
  unfolding read_rows append_attrs by_nothing encode_nothing
  unsorted-misplaced a b ha hb named same_key same_value =
      let (d, first, d', second) = decode-second a b named same_key same_value in
      let last = append_attrs serialize by_nothing reset [] in
      let rest = append_attrs serialize by_nothing reset (b ∷ []) in
      let store = put_attr api [] a.parent_id a.key a.value in
      in_order-read_rows by_nothing (a ∷ b ∷ []) (ha, (hb, tt))
      ∙ (rw
          (read_row-first api serialize deserialize m a.parent_id a.parent_id a.key a.value rest
            new_parent_id_decoder d [] ha first)
          (read_rows-add_row api serialize deserialize m a.parent_id a.key a.value rest ha 1 0 d
              store
            ∙ rw
                (read_row-first api serialize deserialize m b.parent_id
                  (add_word m a.parent_id b.parent_id) b.key b.value last d d' store hb second)
                refl))
