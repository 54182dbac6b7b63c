-- ===== src/Traces/RoundTrip.antt =====
-- Links and events from TryBuild (pkg/otel/traces/arrow) to SpanLinksStoreFrom and
-- SpanEventsStoreFrom (pkg/otel/traces/otlp), for any kind of item.
use otel_arrow_adapter.Base.{
  ℕ, suc, ◌+◌, ◌≤◌, ◌<◌, ◌≡◌, refl, sym, ◌∙◌, Option, none, List, [], ◌∷◌, ◌++◌, arith, length,
  u16_mod, u32_mod, add_word, add_word-eq_of_lt, Str, ok,
}
use mathlib.Core.List.{append-nil, append_assoc}
use otel_arrow_adapter.Attrs.Value.{Value}
use otel_arrow_adapter.Attrs.Sorter.{Attr}
use otel_arrow_adapter.Attrs.Accumulator.{Accumulator, attributes32_append, with_parent_named}
use otel_arrow_adapter.Traces.Groups.{
  GroupEncoder, reset, encode, new_decoder, follow, IsValid, encode-IsValid, decode-encode,
  reset-IsValid,
}
use otel_arrow_adapter.Traces.DeltaIds.{
  word, DeltaBuilder, plain, new_delta_builder, set_max_delta, append_null, InStep, append-ok,
  delta_of, advanced, attributes_by_delta_id-delta_of, advanced-InStep, append_null-InStep,
  append_null-cell,
}
use otel_arrow_adapter.Traces.Related.{
  Kind, Row, ReadItem, build_rows, read_rows, try_build, store_from,
}

-- The accumulator after the attributes of one item.
abbrev grown : Accumulator → ℕ → List (Str × Value) → Accumulator
grown acc id entries = record {
  attrs_map_count = suc acc.attrs_map_count;
  attrs = acc.attrs ++ with_parent_named id entries;
}

attributes32_append-ok :
    (acc : Accumulator) (id : ℕ) (a : Str × Value) (attrs : List (Str × Value))
    → acc.attrs_map_count < 4294967295
    → attributes32_append 4294967295 acc id (a ∷ attrs) ≡ ok (grown acc id (a ∷ attrs))
unfolding attributes32_append
attributes32_append-ok acc id a attrs h = ground arith

next_id : (next : ℕ) → suc next < u32_mod → add_word u32_mod next 1 ≡ suc next
next_id next h = omega (arith, add_word-eq_of_lt u32_mod next 1)

-- The cells keep the group and the fields of an item: `bare` is the item without its attributes.
pub record IsFaithful {Item Cells Read : Type 0} (k : Kind Item Cells Read) (bare : Item → Read)
    : Type 0 where
  pub group : (i : Item) → k.cells_group (k.write i) ≡ k.group i
  pub fields : (i : Item) → k.read (k.write i) ≡ bare i

module _ {Item Cells Read : Type 0} (k : Kind Item Cells Read) (bare : Item → Read) where
  -- The attributes that the items accumulate, where the next id is `next`.
  abbrev pub own_attrs : ℕ → List Item → List Attr
  own_attrs next [] = []
  own_attrs next (i ∷ items) =
      let later = own_attrs (suc next) items in
      let same = own_attrs next items in
      elim (k.attributes i) [ [] ↦ same | a ∷ attrs ↦ with_parent_named next (a ∷ attrs) ++ later ]

  -- The items as they should be read: an item with attributes finds those of its id.
  abbrev pub items_read : {M : Type 0} → (ℕ → Option M) → ℕ → List Item → List (ℕ × ReadItem Read M)
  items_read by_id next [] = []
  items_read by_id next (i ∷ items) =
      let later = items_read by_id (suc next) items in
      let same = items_read by_id next items in
      elim (k.attributes i) [
        | [] ↦ (k.parent_id i, record { item = bare i; attributes = none }) ∷ same
        | a ∷ attrs ↦ (k.parent_id i, record { item = bare i; attributes = by_id next }) ∷ later
      ]

  -- The parent ids are uint16.
  abbrev pub AreItems : List Item → Type 0
  AreItems [] = Unit {0}
  AreItems (i ∷ items) = (k.parent_id i < u16_mod) × AreItems items

  record Built {M : Type 0} (by_id : ℕ → Option M) (b : DeltaBuilder) (e : GroupEncoder)
      (next last : ℕ) (acc : Accumulator) (items : List Item) : Type 0 where
    pub rows : List (Row Cells)
    pub acc' : Accumulator
    pub built : build_rows k encode b e next acc items ≡ ok (rows, acc')
    pub reads : read_rows k by_id last (follow e) rows ≡ items_read by_id next items
    pub attrs : acc'.attrs ≡ acc.attrs ++ own_attrs next items

  module _ {M : Type 0} (by_id : ℕ → Option M) (f : IsFaithful k bare) where
    Built-nil :
        (b : DeltaBuilder) (e : GroupEncoder) (next last : ℕ) (acc : Accumulator)
        → Built by_id b e next last acc []
    unfolding build_rows read_rows
    Built-nil b e next last acc = record {
      rows = [];
      acc' = acc;
      built = refl;
      reads = refl;
      attrs = sym (append-nil acc.attrs);
    }

    Built-plain :
        (b : DeltaBuilder) (e : GroupEncoder) (next last : ℕ) (acc : Accumulator) (i : Item)
        (items : List Item)
        → InStep b next last
        → IsValid e
        → k.parent_id i < u16_mod
        → k.attributes i ≡ []
        → Built by_id (append_null b).1 (encode e (k.parent_id i) (k.group i)).1 next last acc items
        → Built by_id b e next last acc (i ∷ items)
    unfolding build_rows read_rows
    Built-plain b e next last acc i items st v p no_attrs rest = record {
      rows =
          record {
            id = (append_null b).0;
            parent_id = (encode e (k.parent_id i) (k.group i)).0;
            cells = k.write i;
          }
          ∷ rest.rows;
      acc' = rest.acc';
      built = rw (no_attrs, build_rows) (rw rest.built refl);
      reads =
          rw
            (
              f.group i,
              f.fields i,
              decode-encode e (k.parent_id i) (k.group i) p v,
              append_null-cell b next last st,
            )
            (rw (no_attrs, items_read) (rw rest.reads refl));
      attrs = rw (no_attrs, own_attrs) rest.attrs;
    }

    Built-with_attrs :
        (b : DeltaBuilder) (e : GroupEncoder) (next last : ℕ) (acc : Accumulator) (i : Item)
        (items : List Item) (a : Str × Value) (attrs : List (Str × Value))
        → InStep b next last
        → IsValid e
        → k.parent_id i < u16_mod
        → k.attributes i ≡ a ∷ attrs
        → suc next < u32_mod
        → acc.attrs_map_count < 4294967295
        → Built by_id
            (advanced b next)
            (encode e (k.parent_id i) (k.group i)).1
            (suc next)
            next
            (grown acc next (a ∷ attrs))
            items
        → Built by_id b e next last acc (i ∷ items)
    unfolding build_rows read_rows
    Built-with_attrs b e next last acc i items a attrs st v p has room_id room_acc rest = record {
      rows =
          record {
            id = word (delta_of b next);
            parent_id = (encode e (k.parent_id i) (k.group i)).0;
            cells = k.write i;
          }
          ∷ rest.rows;
      acc' = rest.acc';
      built =
          rw (has, build_rows)
            (rw (append-ok b next last st) (
              rw (attributes32_append-ok acc next a attrs room_acc)
                (rw (next_id next room_id) (rw rest.built refl))));
      reads =
          rw (f.group i, f.fields i, decode-encode e (k.parent_id i) (k.group i) p v)
            (rw (attributes_by_delta_id-delta_of u32_mod by_id b next last st (omega arith))
              (rw (has, items_read) (rw rest.reads refl)));
      attrs =
          rw (has, own_attrs)
            (rest.attrs
              ∙ append_assoc acc.attrs (with_parent_named next (a ∷ attrs))
                  (own_attrs (suc next) items));
    }

    Built-cons :
        (b : DeltaBuilder) (e : GroupEncoder) (next last : ℕ) (acc : Accumulator) (i : Item)
        (items : List Item)
        → InStep b next last
        → IsValid e
        → k.parent_id i < u16_mod
        → suc next < u32_mod
        → acc.attrs_map_count < 4294967295
        → Built by_id (append_null b).1 (encode e (k.parent_id i) (k.group i)).1 next last acc items
        → ((attrs : List (Str × Value))
            → Built by_id
                (advanced b next)
                (encode e (k.parent_id i) (k.group i)).1
                (suc next)
                next
                (grown acc next attrs)
                items)
        → (attrs : List (Str × Value)) → k.attributes i ≡ attrs
        → Built by_id b e next last acc (i ∷ items)
    Built-cons b e next last acc i items st v p room_id room_acc no_attrs with_attrs [] h =
        Built-plain b e next last acc i items st v p h no_attrs
    Built-cons b e next last acc i items st v p room_id room_acc no_attrs with_attrs (a ∷ attrs) h =
        Built-with_attrs b e next last acc i items a attrs st v p h room_id room_acc
          (with_attrs (a ∷ attrs))

    -- From any state between two rows.
    build_all :
        (b : DeltaBuilder) (e : GroupEncoder) (next last : ℕ) (acc : Accumulator)
        (items : List Item)
        → InStep b next last
        → IsValid e
        → AreItems items
        → next + length items < u32_mod
        → acc.attrs_map_count + length items ≤ 4294967295
        → Built by_id b e next last acc items
    build_all b e next last acc [] st v are n c = Built-nil b e next last acc
    build_all b e next last acc (i ∷ items) st v are n c =
        Built-cons b e next last acc i items st v are.0 (omega arith) (omega arith)
          (build_all (append_null b).1 e' next last acc items (append_null-InStep b next last st) v'
            are.1 (omega arith) (omega arith))
          (λ attrs.
            build_all (advanced b next) e' (suc next) next (grown acc next attrs) items
              (advanced-InStep b next last st) v' are.1 (omega arith) (omega arith))
          (k.attributes i) refl
      where
        e' : GroupEncoder
        e' = (encode e (k.parent_id i) (k.group i)).1

        v' : IsValid e'
        v' = encode-IsValid e (k.parent_id i) (k.group i) are.0 v

    -- One call of TryBuild and the reader of its rows.
    pub try_build-reads :
        (sort : List Item → List Item) (acc : Accumulator) (items : List Item)
        → AreItems (sort items)
        → length (sort items) < u32_mod
        → acc.attrs_map_count + length (sort items) ≤ 4294967295
        → (out : List (Row Cells) × Accumulator) × (try_build k encode sort acc items ≡ ok out)
          × (store_from k by_id out.0 ≡ items_read by_id 0 (sort items))
          × (out.1.attrs ≡ acc.attrs ++ own_attrs 0 (sort items))
    unfolding try_build store_from new_decoder reset new_delta_builder set_max_delta
    try_build-reads sort acc items are n c =
        let r =
          build_all (set_max_delta (new_delta_builder 4294967295 plain) 1) reset 0 0 acc
            (sort items)
            (record {
              column = refl;
              max_delta = refl;
              first = λ h. (refl, refl);
              later = λ h. omega arith;
              lower = omega arith;
              upper = omega arith;
            })
            reset-IsValid are (omega arith) c in
        ((r.rows, r.acc'), r.built, r.reads, r.attrs)
