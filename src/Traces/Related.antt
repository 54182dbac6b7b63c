-- ===== src/Traces/Related.antt =====
-- Links and events of spans as related records: LinkBuilder.TryBuild and EventBuilder.TryBuild
-- (pkg/otel/traces/arrow), SpanLinksStoreFrom and SpanEventsStoreFrom (pkg/otel/traces/otlp). The
-- two differ in their fields only, which a `Kind` lists.
use otel_arrow_adapter.Base.{
  ℕ, suc, Option, none, List, [], ◌∷◌, ◌++◌, ◌==◌, if◌then◌else◌, u32_mod, add_word, Str, Result,
  ok, panic, ◌>>=◌,
}
use otel_arrow_adapter.Attrs.Value.{Value}
use otel_arrow_adapter.Attrs.Accumulator.{Accumulator, attributes32_append}
use otel_arrow_adapter.Traces.Groups.{GroupEncoder, GroupDecoder, reset, new_decoder, decode}
use otel_arrow_adapter.Traces.DeltaIds.{
  Cell, nothing, null, word, DeltaBuilder, plain, new_delta_builder, set_max_delta, append,
  append_null, attributes_by_delta_id,
}

-- An item that is written, the cells of its row (but for the id and the parent id), and what is
-- read from them. `group` is what the items are grouped by.
pub record Kind (Item Cells Read : Type 0) : Type 0 where
  pub parent_id : Item → ℕ
  pub group : Item → Str
  pub attributes : Item → List (Str × Value)
  pub write : Item → Cells
  pub cells_group : Cells → Str
  pub read : Cells → Read

pub record Row (Cells : Type 0) : Type 0 where
  pub id : Cell
  pub parent_id : ℕ
  pub cells : Cells

-- LinkAccumulator and EventAccumulator, over the items of all spans.
pub record ItemAccumulator (Item : Type 0) : Type 0 where
  pub group_count : ℕ
  pub items : List Item

-- Append: `items` are those of one span, with its id as parent. The group count is a uint16.
unfoldable pub accumulate :
    {Item : Type 0} → ItemAccumulator Item → List Item → Result ⊥ (ItemAccumulator Item)
accumulate a [] = if a.group_count == 65535 then panic else ok a
accumulate a (i ∷ items) =
    if a.group_count == 65535
    then panic
    else ok (record { group_count = suc a.group_count; items = a.items ++ (i ∷ items) })

module _ {Item Cells Read : Type 0} (k : Kind Item Cells Read)
    (enc : GroupEncoder → ℕ → Str → ℕ × GroupEncoder) where
  -- The loop of TryBuild over the sorted items. An item with attributes gets the next id, under
  -- which its attributes are accumulated; the counter is a uint32.
  unfoldable pub build_rows :
      DeltaBuilder
      → GroupEncoder
      → ℕ
      → Accumulator
      → List Item
      → Result ⊥ (List (Row Cells) × Accumulator)
  build_rows b e next acc [] = ok ([], acc)
  build_rows b e next acc (i ∷ items) =
      let (n, e') = enc e (k.parent_id i) (k.group i) in
      elim (k.attributes i) [
        | [] ↦
            let (cell, b') = append_null b in
            build_rows b' e' next acc items >>= λ out.
            ok (record { id = cell; parent_id = n; cells = k.write i } ∷ out.0, out.1)
        | a ∷ attrs ↦ append b next >>= λ appended.
            attributes32_append 4294967295 acc next (a ∷ attrs) >>= λ acc'.
            build_rows appended.1 e' (add_word u32_mod next 1) acc' items >>= λ out.
            ok (record { id = appended.0; parent_id = n; cells = k.write i } ∷ out.0, out.1)
      ]

  -- TryBuild, after the builder's `init`: the items are sorted in place.
  unfoldable pub try_build :
      (List Item → List Item) → Accumulator → List Item → Result ⊥ (List (Row Cells) × Accumulator)
  try_build sort acc items =
      build_rows (set_max_delta (new_delta_builder 4294967295 plain) 1) reset 0 acc (sort items)

-- What the reader makes of a row: the item with the attributes that were found for it.
pub record ReadItem (Read M : Type 0) : Type 0 where
  pub item : Read
  pub attributes : Option M

module _ {Item Cells Read M : Type 0} (k : Kind Item Cells Read) (by_id : ℕ → Option M) where
  -- A row without an id has no attributes.
  find_attributes : ℕ → Cell → Option M × ℕ
  find_attributes last nothing = (none, last)
  find_attributes last null = (none, last)
  find_attributes last (word id) = attributes_by_delta_id u32_mod by_id last id

  -- The loop of SpanLinksStoreFrom: each row's parent id and item. `last` is the store's lastID.
  unfoldable pub read_rows : ℕ → GroupDecoder → List (Row Cells) → List (ℕ × ReadItem Read M)
  unfolding find_attributes
  read_rows last d [] = []
  read_rows last d (r ∷ rows) =
      let (parent_id, d') = decode d r.parent_id (k.cells_group r.cells) in
      let (attrs, last') = find_attributes last r.id in
      (parent_id, record { item = k.read r.cells; attributes = attrs }) ∷ read_rows last' d' rows

  -- SpanLinksStoreFrom: the rows are read from the initial state.
  unfoldable pub store_from : List (Row Cells) → List (ℕ × ReadItem Read M)
  store_from rows = read_rows 0 new_decoder rows

-- The map by parent id: `store.linksByID[parentID] = append(store.linksByID[parentID], &link)`.
unfoldable pub collect : {A : Type 0} → ℕ → List (ℕ × A) → List A
collect id [] = []
collect id ((i, a) ∷ rows) = let rest = collect id rows in if i == id then a ∷ rest else rest
