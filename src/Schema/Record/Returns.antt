-- ===== src/Schema/Record/Returns.antt =====
-- Where the pass of detectDictionaryOverflow (RecordBuilderExt in builder/record.go of
-- pkg/otel/common/schema) over the columns of a record does not panic.
use otel_arrow_adapter.Base.{
  ℕ, ◌≡◌, refl, sym, subst, ap, ◌∙◌, inl, inr, Bool, true, false, ◌||◌, none, some, List, [], ◌∷◌,
  map, ok, arith, Str, Option-cases, Bool-cases, str_eq,
}
use otel_arrow_adapter.Schema.Types.{
  dict_id_key, Metadata, plain, dictionary, struct_of, list_of, union_of, map_of, Field, field,
  Fields, no_fields, add_field, find_key,
}
use otel_arrow_adapter.Schema.Dictionary.{DictionaryField, Shared, add_total, set_cardinality}
use otel_arrow_adapter.Schema.Tree.{Table}
use otel_arrow_adapter.Schema.NewSchema.{ArrowTypes}
use otel_arrow_adapter.Schema.Record.{
  Column, dictionary_column, other_column, struct_column, list_column, union_column, map_column,
  Columns, no_columns, add_column, observe_column, knows, detect_leaf, detect_dictionary_overflow,
  detect_each,
}

-- The ids of the dictionaries.
abbrev pub ids_of : Table → List Str
ids_of table = map (λ t. t.dict_id) table

unfoldable pub is_known : Str → List Str → Bool
is_known id [] = false
is_known id (i ∷ ids) = str_eq i id || is_known id ids

is_known-knows : (id : Str) (table : Table) → is_known id (ids_of table) ≡ knows id table
unfolding is_known knows
is_known-knows id [] = refl
is_known-knows id (t ∷ table) = ap (λ b. str_eq t.dict_id id || b) (is_known-knows id table)

-- The dictionary that the metadata name is in the table, if they name one.
unfoldable pub LeafFits : Metadata → List Str → Type 0
unfolding is_known
LeafFits metadata ids = elim (find_key dict_id_key metadata) [
  | none ↦ Unit
  | some id ↦ is_known id ids ≡ true
]

set_cardinality-dict_id :
    (t : DictionaryField) (len card : ℕ) (s : Shared)
    → (set_cardinality (add_total t len) s card).0.dict_id ≡ t.dict_id
unfolding set_cardinality add_total
set_cardinality-dict_id t len card s = ground arith

observe_column-returns :
    (id : Str) (len card : ℕ) (table : Table) (s : Shared)
    → knows id table ≡ true
    → (r : Table × Shared) × (observe_column id len card table s ≡ some r)
      × (ids_of r.0 ≡ ids_of table)
unfolding observe_column knows
observe_column-returns id len card [] s h = absurd (ground arith)
observe_column-returns id len card (t ∷ table) s h = elim (Bool-cases (str_eq t.dict_id id)) [
  | inl here ↦
      let r = set_cardinality (add_total t len) s card in
      (
        (r.0 ∷ table, r.1),
        ground (arith, here),
        ap (λ i. i ∷ ids_of table) (set_cardinality-dict_id t len card s),
      )
  | inr there ↦
      let (r, e, same) = observe_column-returns id len card table s (ground (arith, h, there)) in
      ((t ∷ r.0, r.1), ground (arith, there, e), ap (λ ids. t.dict_id ∷ ids) same)
]

detect_leaf-returns :
    (column : Column) (m : Metadata) (table : Table) (s : Shared)
    → LeafFits m (ids_of table)
    → (r : Table × Shared) × (detect_leaf column m (table, s) ≡ ok r) × (ids_of r.0 ≡ ids_of table)
unfolding detect_leaf LeafFits
detect_leaf-returns column m table s h = elim (Option-cases (find_key dict_id_key m)) [
  | inl none_named ↦ ((table, s), without none_named, refl)
  | inr (id, named) ↦ at_id column id named (sym (is_known-knows id table) ∙ fits id named)
]
  where
    without : find_key dict_id_key m ≡ none → detect_leaf column m (table, s) ≡ ok (table, s)
    without e = rw (detect_leaf, e) refl

    fits : (id : Str) → find_key dict_id_key m ≡ some id → is_known id (ids_of table) ≡ true
    fits id e = rw (LeafFits, e) at h

    at_id :
        (column : Column) (id : Str)
        → find_key dict_id_key m ≡ some id
        → knows id table ≡ true
        → (r : Table × Shared) × (detect_leaf column m (table, s) ≡ ok r)
          × (ids_of r.0 ≡ ids_of table)
    at_id (dictionary_column len card) id e k =
        let (r, found, same) = observe_column-returns id len card table s k in
        (r, rw (detect_leaf, e, k, found) refl, same)
    at_id other_column id e k = ((table, s), rw (detect_leaf, e, k) refl, refl)
    at_id (struct_column cs) id e k = ((table, s), rw (detect_leaf, e, k) refl, refl)
    at_id (list_column c) id e k = ((table, s), rw (detect_leaf, e, k) refl, refl)
    at_id (union_column cs) id e k = ((table, s), rw (detect_leaf, e, k) refl, refl)
    at_id (map_column keys values) id e k = ((table, s), rw (detect_leaf, e, k) refl, refl)

module _ (arrow : ArrowTypes) where
  -- The columns have the kinds of their fields, and the dictionaries that the fields name are in
  -- the table.
  unfoldable mutual
    unfolding LeafFits

    pub ColumnFits : Field → Column → List Str → Type 0
    ColumnFits (field name (plain p) b m) column ids = LeafFits m ids
    ColumnFits (field name (dictionary index value) b m) column ids = LeafFits m ids
    ColumnFits (field name (struct_of fs) b m) (struct_column cs) ids = EachFits fs cs ids
    ColumnFits (field name (list_of elem) b m) (list_column c) ids = ColumnFits elem c ids
    ColumnFits (field name (union_of mode fs codes) b m) (union_column cs) ids = EachFits fs cs ids
    ColumnFits (field name (map_of key item) b m) (map_column keys values) ids =
        ColumnFits key keys ids × ColumnFits (arrow.map_value key item) values ids
    ColumnFits (field name _ b m) _ ids = ⊥

    pub EachFits : Fields → Columns → List Str → Type 0
    EachFits no_fields _ ids = Unit
    EachFits (add_field f fs) no_columns ids = ⊥
    EachFits (add_field f fs) (add_column c cs) ids = ColumnFits f c ids × EachFits fs cs ids

  mutual
    unfolding detect_dictionary_overflow ColumnFits

    detect-returns :
        (f : Field) (column : Column) (table : Table) (s : Shared)
        → ColumnFits f column (ids_of table)
        → (r : Table × Shared) × (detect_dictionary_overflow arrow f column (table, s) ≡ ok r)
          × (ids_of r.0 ≡ ids_of table)
    detect-returns (field name (plain p) b m) column table s h =
        detect_leaf-returns column m table s h
    detect-returns (field name (dictionary index value) b m) column table s h =
        detect_leaf-returns column m table s h
    detect-returns (field name (struct_of fs) b m) (struct_column cs) table s h =
        each-returns fs cs table s h
    detect-returns (field name (list_of elem) b m) (list_column c) table s h =
        detect-returns elem c table s h
    detect-returns (field name (union_of mode fs codes) b m) (union_column cs) table s h =
        each-returns fs cs table s h
    detect-returns (field name (map_of key item) b m) (map_column keys values) table s (h, g) =
        let value = arrow.map_value key item in
        let (r, e, same) = detect-returns key keys table s h in
        let (r', e', same') =
          detect-returns value values r.0 r.1
            (subst (λ ids. ColumnFits value values ids) (sym same) g) in
        (r', rw e e', same' ∙ same)
    detect-returns (field name _ b m) _ table s h = absurd h

    pub each-returns :
        (fs : Fields) (cs : Columns) (table : Table) (s : Shared)
        → EachFits fs cs (ids_of table)
        → (r : Table × Shared) × (detect_each arrow fs cs (table, s) ≡ ok r)
          × (ids_of r.0 ≡ ids_of table)
    each-returns no_fields _ table s h = ((table, s), refl, refl)
    each-returns (add_field f fs) no_columns table s h = absurd h
    each-returns (add_field f fs) (add_column c cs) table s (h, g) =
        let (r, e, same) = detect-returns f c table s h in
        let (r', e', same') =
          each-returns fs cs r.0 r.1 (subst (λ ids. EachFits fs cs ids) (sym same) g) in
        (r', rw e e', same' ∙ same)
