-- ===== src/Attrs/RoundTrip.antt =====
-- An attribute record from TryBuild (attributes_16.go, attributes_32.go) to the store of
-- attributes_new.go.
use otel_arrow_adapter.Base.{
  ℕ, ◌<◌, ◌≡◌, refl, ◌∙◌, ◌≢◌, Bool, true, Option, none, List, [], ◌∷◌, arith, length, str_eq-nil,
  Result, ok, ◌>>=◌,
}
use otel_arrow_adapter.Attrs.Value.{Value}
use otel_arrow_adapter.Attrs.Sorter.{
  Attr, Sorter, SorterState, reset, encode_group, is_same_key_value, by_key_value_parent_id,
}
use otel_arrow_adapter.Attrs.Columns.{Columns, append_attrs, is_rectangular, try_build}
use otel_arrow_adapter.Attrs.Store.{
  MapApi, StoreError, put_attr, read_rows, store_from, attributes_by_id,
}
use otel_arrow_adapter.Attrs.Accumulator.{sort_attrs}
use otel_arrow_adapter.Attrs.Grouping.{
  rows_of, put_rows, rows_of-perm, All-perm, attributes_by_id-put_all,
}
use mathlib.Core.List.{Permᴰ}
use otel_arrow_adapter.Attrs.ParentIds.{
  follow, follow-reset, IsStarted, decode-encode_group, encode_group-IsStarted,
}
use otel_arrow_adapter.Attrs.Rows.{
  IsCarried, put_all, All, HasRows, lengths-add_row, read_rows-add_row, read_row-first,
}

-- Where the encoder has seen no row, the first row's key differs from the decoder's initial one.
abbrev pub Starts : SorterState → List Attr → Type 0
Starts e [] = Unit {0}
Starts e (a ∷ attrs) = IsStarted e a.key

Starts-next :
    (m : ℕ) (e : SorterState) (a : Attr) (attrs : List Attr)
    → Starts (encode_group is_same_key_value m e a.parent_id a.key a.value).1 attrs
Starts-next m e a [] = tt
Starts-next m e a (b ∷ attrs) =
    λ h. absurd ((encode_group-IsStarted m e a.parent_id a.key a.value).0 h)

module _ (serialize : Value → Option (List ℕ)) (deserialize : List ℕ → Option Value) where
  pub append_attrs-HasRows :
      (sorter : Sorter) (e : SorterState) (attrs : List Attr)
      → All (λ a. IsCarried serialize deserialize a.value) attrs
      → HasRows (length attrs) (append_attrs serialize sorter e attrs)
  unfolding append_attrs
  append_attrs-HasRows sorter e [] h = omega arith
  append_attrs-HasRows sorter e (a ∷ attrs) h =
      let (n, e') = sorter.encode e a.parent_id a.key a.value in
      lengths-add_row serialize deserialize n (length attrs) a.key a.value
        (append_attrs serialize sorter e' attrs) h.0 (append_attrs-HasRows sorter e' attrs h.1)

  HasRows-is_rectangular : (n : ℕ) (c : Columns) → HasRows n c → is_rectangular c ≡ true
  unfolding is_rectangular
  HasRows-is_rectangular n c r = ground arith

  -- With values that can be carried, TryBuild makes a record.
  pub try_build-ok {ℓ} :
      {E : Type ℓ} (sorter : Sorter) (attrs : List Attr)
      → All (λ a. IsCarried serialize deserialize a.value) attrs
      → try_build {E = E} serialize sorter attrs ≡ ok (append_attrs serialize sorter reset attrs)
  unfolding try_build
  try_build-ok sorter attrs h = rw (
      HasRows-is_rectangular (length attrs) (append_attrs serialize sorter reset attrs)
        (append_attrs-HasRows sorter reset attrs h))

module _ {ℓ} {M : Type ℓ} (api : MapApi M) (serialize : Value → Option (List ℕ))
    (deserialize : List ℕ → Option Value) (m : ℕ) where
  read_rows-append_attrs :
      (e : SorterState) (attrs : List Attr) (store : List (ℕ × M))
      → All (λ a. IsCarried serialize deserialize a.value) attrs
      → All (λ a. a.parent_id < m) attrs
      → e.prev_parent_id < m
      → Starts e attrs
      → read_rows api deserialize m
          (append_attrs serialize (by_key_value_parent_id m) e attrs)
          (length attrs)
          0
          (follow e)
          store
        ≡ ok (put_all api store attrs)
  unfolding read_rows append_attrs by_key_value_parent_id
  read_rows-append_attrs e [] store h w k s = refl
  read_rows-append_attrs e (a ∷ attrs) store h w k s =
      let n = (encode_group is_same_key_value m e a.parent_id a.key a.value).0 in
      let e' = (encode_group is_same_key_value m e a.parent_id a.key a.value).1 in
      let rest = append_attrs serialize (by_key_value_parent_id m) e' attrs in
      let store' = put_attr api store a.parent_id a.key a.value in
      rw
        (read_row-first api serialize deserialize m n a.parent_id a.key a.value rest (follow e)
          (follow e') store h.0 (decode-encode_group m e a.parent_id a.key a.value w.0 k s))
        (read_rows-add_row api serialize deserialize m n a.key a.value rest h.0 (length attrs) 0
            (follow e') store'
          ∙ read_rows-append_attrs e' attrs store' h.1 w.1
              (rw (encode_group-IsStarted m e a.parent_id a.key a.value).1 w.0)
              (Starts-next m e a attrs))

Starts-reset : (attrs : List Attr) → All (λ a. a.key ≢ []) attrs → Starts reset attrs
unfolding reset
Starts-reset [] h = tt
Starts-reset (a ∷ attrs) h = λ e. str_eq-nil a.key h.0

module _ {ℓ} {M : Type ℓ} (api : MapApi M) (serialize : Value → Option (List ℕ))
    (deserialize : List ℕ → Option Value) (m : ℕ) where
  store_from-append_attrs :
      (attrs : List Attr)
      → All (λ a. IsCarried serialize deserialize a.value) attrs
      → All (λ a. a.parent_id < m) attrs
      → All (λ a. a.key ≢ []) attrs
      → 0 < m
      → store_from api deserialize m
          (append_attrs serialize (by_key_value_parent_id m) reset attrs)
          []
        ≡ ok (put_all api [] attrs)
  unfolding store_from reset
  store_from-append_attrs attrs h w k p =
      rw
        (
          (append_attrs-HasRows serialize deserialize (by_key_value_parent_id m) reset attrs
              h).parent_ids,
          ← follow-reset,
        )
        (read_rows-append_attrs api serialize deserialize m reset attrs [] h w p
          (Starts-reset attrs k))

-- The rows in the order by key, value and parent id.
abbrev pub sorted : ((Attr → Attr → Bool) → List Attr → List Attr) → ℕ → List Attr → List Attr
sorted sort m attrs = sort_attrs sort (by_key_value_parent_id m) attrs

-- Writing attributes into a record in that order, and reading the record into an empty store.
module _ {ℓ} {M : Type ℓ} (api : MapApi M) (serialize : Value → Option (List ℕ))
    (deserialize : List ℕ → Option Value) (m : ℕ)
    (sort : (Attr → Attr → Bool) → List Attr → List Attr) where
  abbrev pub written_and_read : List Attr → Result StoreError (List (ℕ × M))
  written_and_read attrs =
      try_build serialize (by_key_value_parent_id m) (sorted sort m attrs) >>= λ c.
      store_from api deserialize m c []

  module _ (permutes : (less : Attr → Attr → Bool) (xs : List Attr) → Permᴰ (sort less xs) xs) where
    sorted-perm : (attrs : List Attr) → Permᴰ (sorted sort m attrs) attrs
    unfolding sort_attrs by_key_value_parent_id
    sorted-perm attrs = permutes _ attrs

    -- When `sort` permutes its input, no value is of the type Empty, every slice and map survives the
    -- CBOR coding, the parent ids are words, and no key is empty: writing the attributes sorted by key and value and reading the
    -- record back succeeds, and each parent id then has its own attributes, put in the sorted order.
    pub written_and_read-ok :
        (attrs : List Attr)
        → All (λ a. IsCarried serialize deserialize a.value) attrs
        → All (λ a. a.parent_id < m) attrs
        → All (λ a. a.key ≢ []) attrs
        → 0 < m
        → (store : List (ℕ × M)) × (written_and_read attrs ≡ ok store)
          × ((id : ℕ)
              → attributes_by_id api store id
                ≡ put_rows api none (rows_of id (sorted sort m attrs)))
          × ((id : ℕ) → Permᴰ (rows_of id (sorted sort m attrs)) (rows_of id attrs))
    unfolding attributes_by_id
    written_and_read-ok attrs carried bounded named pos_m = (
      put_all api [] (sorted sort m attrs),
      rw
          (try_build-ok serialize deserialize (by_key_value_parent_id m) (sorted sort m attrs)
            (All-perm _ (sorted-perm attrs) carried))
          (store_from-append_attrs api serialize deserialize m (sorted sort m attrs)
            (All-perm _ (sorted-perm attrs) carried) (All-perm _ (sorted-perm attrs) bounded)
            (All-perm _ (sorted-perm attrs) named) pos_m),
      λ id. attributes_by_id-put_all api [] (sorted sort m attrs) id,
      λ id. rows_of-perm id (sorted-perm attrs),
    )
