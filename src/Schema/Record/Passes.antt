-- ===== src/Schema/Record/Passes.antt =====
-- The passes of detectDictionaryOverflow (RecordBuilderExt in builder/record.go of
-- pkg/otel/common/schema) over the columns of a record.
use otel_arrow_adapter.Base.{
  ◌≡◌, inl, inr, true, false, none, some, List, ok, arith, Str, Option-cases, Bool-cases, bind-ok,
}
use otel_arrow_adapter.Schema.Types.{
  dict_id_key, Metadata, plain, dictionary, struct_of, list_of, union_of, map_of, Field, field,
  Fields, no_fields, add_field, find_key,
}
use otel_arrow_adapter.Schema.Dictionary.{Shared}
use otel_arrow_adapter.Schema.Tree.{Table}
use otel_arrow_adapter.Schema.NewSchema.{ArrowTypes}
use otel_arrow_adapter.Schema.NewSchema.Transforms.{AllValid}
use otel_arrow_adapter.Schema.Record.{
  Column, dictionary_column, struct_column, list_column, union_column, map_column, Columns,
  no_columns, add_column, observe_column, knows, detect_leaf, detect_dictionary_overflow,
  detect_each,
}
use otel_arrow_adapter.Schema.Record.Tables.{
  Shape, shapes, HasRoom, Passed, observe_column-Passed, unchanged, both,
}

-- The dictionary columns have room, each in the field that its metadata names.
unfoldable pub LeafHasRoom : Column → Metadata → List Shape → Type 0
LeafHasRoom (dictionary_column len card) metadata ts = elim (find_key dict_id_key metadata) [
  | none ↦ Unit
  | some id ↦ HasRoom id card ts
]
LeafHasRoom _ metadata ts = Unit

module _ (arrow : ArrowTypes) where
  unfoldable mutual
    unfolding LeafHasRoom

    pub ColumnHasRoom : Field → Column → List Shape → Type 0
    ColumnHasRoom (field name (plain p) b m) column ts = LeafHasRoom column m ts
    ColumnHasRoom (field name (dictionary index value) b m) column ts = LeafHasRoom column m ts
    ColumnHasRoom (field name (struct_of fs) b m) (struct_column cs) ts = EachHasRoom fs cs ts
    ColumnHasRoom (field name (list_of elem) b m) (list_column c) ts = ColumnHasRoom elem c ts
    ColumnHasRoom (field name (union_of mode fs codes) b m) (union_column cs) ts =
        EachHasRoom fs cs ts
    ColumnHasRoom (field name (map_of key item) b m) (map_column keys values) ts =
        ColumnHasRoom key keys ts × ColumnHasRoom (arrow.map_value key item) values ts
    ColumnHasRoom (field name _ b m) _ ts = ⊥

    pub EachHasRoom : Fields → Columns → List Shape → Type 0
    EachHasRoom no_fields _ ts = Unit
    EachHasRoom (add_field f fs) no_columns ts = ⊥
    EachHasRoom (add_field f fs) (add_column c cs) ts = ColumnHasRoom f c ts × EachHasRoom fs cs ts

same_room :
    (R Q : List Shape → Type 0) (table t1 : Table) (s s1 : Shared)
    → ((ts : List Shape) → R ts → Q ts)
    → ((ts : List Shape) → Q ts → R ts)
    → Passed R table s t1 s1
    → Passed Q table s t1 s1
same_room R Q table t1 s s1 f g p = record {
  valid = p.valid;
  same_length = p.same_length;
  count_le = p.count_le;
  room_le = omega (arith, p.room_le);
  quiet = λ q. ((p.quiet q).0, f (shapes table) (p.quiet q).1);
  noisy = λ q has. p.noisy q (g (shapes table) has);
}

detect_leaf-Passed :
    (column : Column) (m : Metadata) (table : Table) (s : Shared) (r : Table × Shared)
    → AllValid table
    → detect_leaf column m (table, s) ≡ ok r
    → Passed (λ ts. LeafHasRoom column m ts) table s r.0 r.1
unfolding detect_leaf LeafHasRoom
detect_leaf-Passed (dictionary_column len card) m table s r vs e =
    elim (Option-cases (find_key dict_id_key m)) [
      | inl k ↦
          let is_r : (table, s) ≡ r = ground arith in
          rw (← is_r) (unchanged _ table s vs (rw (LeafHasRoom, k) tt))
      | inr (id, k) ↦ elim (Bool-cases (knows id table)) [
        | inl known ↦ elim (Option-cases (observe_column id len card table s)) [
          | inl missing ↦ absurd (stuck id k known missing)
          | inr (r1, found) ↦
              let is_r : r1 ≡ r = ground arith in
              rw (← is_r) (
                same_room _ _ table r1.0 s r1.1 (λ ts h. rw (LeafHasRoom, k) h)
                  (λ ts h. rw (LeafHasRoom, k) at h)
                  (observe_column-Passed id len card table s r1 vs found))
        ]
        | inr unknown ↦ absurd (lost id k unknown)
      ]
    ]
  where
    stuck :
        (id : Str)
        → find_key dict_id_key m ≡ some id
        → knows id table ≡ true
        → observe_column id len card table s ≡ none
        → ⊥
    stuck id k known missing = ground arith

    lost : (id : Str) → find_key dict_id_key m ≡ some id → knows id table ≡ false → ⊥
    lost id k unknown = ground arith
detect_leaf-Passed _ m table s r vs e =
    let is_r : (table, s) ≡ r = elim (Option-cases (find_key dict_id_key m)) [
      | inl k ↦ ground arith
      | inr (id, k) ↦ elim (Bool-cases (knows id table)) [
        | inl known ↦ ground arith
        | inr unknown ↦ ground arith
      ]
    ] in
    rw (← is_r) (unchanged _ table s vs tt)

module _ (arrow : ArrowTypes) where
  mutual
    unfolding detect_dictionary_overflow ColumnHasRoom

    detect-Passed :
        (f : Field) (column : Column) (table : Table) (s : Shared) (r : Table × Shared)
        → AllValid table
        → detect_dictionary_overflow arrow f column (table, s) ≡ ok r
        → Passed (λ ts. ColumnHasRoom arrow f column ts) table s r.0 r.1
    detect-Passed (field name (plain p) b m) column table s r vs e =
        detect_leaf-Passed column m table s r vs e
    detect-Passed (field name (dictionary index value) b m) column table s r vs e =
        detect_leaf-Passed column m table s r vs e
    detect-Passed (field name (struct_of fs) b m) (struct_column cs) table s r vs e =
        each-Passed fs cs table s r vs e
    detect-Passed (field name (list_of elem) b m) (list_column c) table s r vs e =
        detect-Passed elem c table s r vs e
    detect-Passed (field name (union_of mode fs codes) b m) (union_column cs) table s r vs e =
        each-Passed fs cs table s r vs e
    detect-Passed (field name (map_of key item) b m) (map_column keys values) table s r vs e =
        let (st, first, second) =
          bind-ok (detect_dictionary_overflow arrow key keys (table, s))
            (λ st. detect_dictionary_overflow arrow (arrow.map_value key item) values st) r e in
        let p = detect-Passed key keys table s st vs first in
        both _ _ table st.0 r.0 s st.1 r.1 p
          (detect-Passed (arrow.map_value key item) values st.0 st.1 r p.valid second)
    detect-Passed (field name _ b m) _ table s r vs e = ground arith

    pub each-Passed :
        (fs : Fields) (cs : Columns) (table : Table) (s : Shared) (r : Table × Shared)
        → AllValid table
        → detect_each arrow fs cs (table, s) ≡ ok r
        → Passed (λ ts. EachHasRoom arrow fs cs ts) table s r.0 r.1
    each-Passed no_fields _ table s r vs e =
        let is_r : (table, s) ≡ r = ground arith in rw (← is_r) (unchanged _ table s vs tt)
    each-Passed (add_field f fs) no_columns table s r vs e = ground arith
    each-Passed (add_field f fs) (add_column c cs) table s r vs e =
        let (st, first, second) =
          bind-ok (detect_dictionary_overflow arrow f c (table, s))
            (λ st. detect_each arrow fs cs st) r e in
        let p = detect-Passed f c table s st vs first in
        both _ _ table st.0 r.0 s st.1 r.1 p (each-Passed fs cs st.0 st.1 r p.valid second)
