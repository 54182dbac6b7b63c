-- ===== src/Schema/Record.antt =====
-- RecordBuilderExt (builder/record.go of pkg/otel/common/schema): the record builder that adapts
-- its schema. Of the columns that Arrow's builder returns, the model keeps what the code reads.
pub mod Tables
pub mod Passes
pub mod Returns
pub mod Steps
pub mod Attempts
pub mod Life
pub mod Keeping
pub mod Current
use otel_arrow_adapter.Base.{
  ℕ, zero, suc, ◌+◌, ◌==◌, Bool, false, ◌||◌, if◌then◌else◌, List, [], ◌∷◌, Option, none, some, Str,
  str_eq, Result, ok, panic, ◌>>=◌, get_elem?,
}
use otel_arrow_adapter.Schema.Types.{
  dict_id_key, Metadata, DataType, plain, dictionary, struct_of, list_of, union_of, map_of, Field,
  field, Fields, no_fields, add_field, find_key,
}
use otel_arrow_adapter.Schema.Dictionary.{
  Dictionary, DictionaryField, Shared, inc, reset, add_total, set_cardinality, revert_counters,
}
use otel_arrow_adapter.Schema.Tree.{
  FieldTransform, identity_field, removed_field, dictionary_field, TransformNode, node, Nodes,
  no_nodes, add_node, Table, remove_optional, new_transform_tree_from,
}
use otel_arrow_adapter.Schema.NewSchema.{ArrowTypes, new_schema_from}

mutual
  -- A dictionary column has a length and the length of its dictionary.
  pub data Column : Type 0 where
    dictionary_column : ℕ → ℕ → Column
    other_column : Column
    struct_column : Columns → Column
    list_column : Column → Column
    union_column : Columns → Column
    map_column : Column → Column → Column

  pub data Columns : Type 0 where
    no_columns : Columns
    add_column : Column → Columns → Columns

-- `dictTransformNodes[dictId]`, AddTotal and SetCardinality; `none` is a missing key.
unfoldable pub observe_column : Str → ℕ → ℕ → Table → Shared → Option (Table × Shared)
unfolding add_total set_cardinality
observe_column id len card [] s = none
observe_column id len card (t ∷ table) s =
    let rest = observe_column id len card table s in
    if str_eq t.dict_id id
    then (let (t', s') = set_cardinality (add_total t len) s card in some (t' ∷ table, s'))
    else elim rest [ none ↦ none | some r ↦ some (t ∷ r.0, r.1) ]

unfoldable pub knows : Str → Table → Bool
knows id [] = false
knows id (t ∷ table) = str_eq t.dict_id id || knows id table

-- The default case of detectDictionaryOverflow.
unfoldable pub detect_leaf : Column → Metadata → Table × Shared → Result ⊥ (Table × Shared)
unfolding observe_column find_key knows
detect_leaf column metadata (table, s) = elim (find_key dict_id_key metadata) [
  | none ↦ ok (table, s)
  | some id ↦
      if knows id table
      then elim column [
        | dictionary_column len card ↦ elim (observe_column id len card table s) [
          | none ↦ panic
          | some r ↦ ok r
        ]
        | _ ↦ ok (table, s)
      ]
      else panic
]

module _ (arrow : ArrowTypes) where
  -- A column of another kind than its field's type is a cast that panics.
  unfoldable mutual
    unfolding detect_leaf

    pub detect_dictionary_overflow : Field → Column → Table × Shared → Result ⊥ (Table × Shared)
    detect_dictionary_overflow (field name (plain p) b m) column st = detect_leaf column m st
    detect_dictionary_overflow (field name (dictionary index value) b m) column st =
        detect_leaf column m st
    detect_dictionary_overflow (field name (struct_of fs) b m) (struct_column cs) st =
        detect_each fs cs st
    detect_dictionary_overflow (field name (list_of elem) b m) (list_column c) st =
        detect_dictionary_overflow elem c st
    detect_dictionary_overflow (field name (union_of mode fs codes) b m) (union_column cs) st =
        detect_each fs cs st
    detect_dictionary_overflow (field name (map_of key item) b m) (map_column keys values) st =
        detect_dictionary_overflow key keys st >>= λ st'.
        detect_dictionary_overflow (arrow.map_value key item) values st'
    detect_dictionary_overflow (field name _ b m) _ st = panic

    -- The loops over the fields of a record, a struct or a union.
    pub detect_each : Fields → Columns → Table × Shared → Result ⊥ (Table × Shared)
    detect_each no_fields _ st = ok st
    detect_each (add_field f fs) no_columns st = panic
    detect_each (add_field f fs) (add_column c cs) st =
        detect_dictionary_overflow f c st >>= λ st'. detect_each fs cs st'

-- RevertCounters of the transformations and of the nodes.
unfoldable pub revert_at : ℕ → Table → Table
unfolding revert_counters
revert_at i [] = []
revert_at zero (t ∷ table) = revert_counters t ∷ table
revert_at (suc i) (t ∷ table) = t ∷ revert_at i table

unfoldable pub revert_all : List FieldTransform → Table → Table
unfolding revert_at
revert_all [] table = table
revert_all (dictionary_field i ∷ ts) table = revert_all ts (revert_at i table)
revert_all (identity_field ∷ ts) table = revert_all ts table
revert_all (removed_field ∷ ts) table = revert_all ts table

unfoldable mutual
  unfolding revert_all

  pub revert_node : TransformNode → Table → Table
  revert_node (node name ts children) table = revert_nodes children (revert_all ts table)

  pub revert_nodes : Nodes → Table → Table
  revert_nodes no_nodes table = table
  revert_nodes (add_node n ns) table = revert_nodes ns (revert_node n table)

-- RemoveOptional on the node at a path of child positions.
unfoldable mutual
  unfolding remove_optional

  pub remove_at : Nodes → ℕ → List ℕ → Nodes
  remove_at no_nodes i path = no_nodes
  remove_at (add_node n ns) zero path = add_node (remove_in n path) ns
  remove_at (add_node n ns) (suc i) path = add_node n (remove_at ns i path)

  pub remove_in : TransformNode → List ℕ → TransformNode
  remove_in n [] = remove_optional n
  remove_in (node name ts children) (i ∷ path) = node name ts (remove_at children i path)

pub record RecordBuilderExt : Type 0 where
  pub proto_schema : Fields
  pub transform_tree : Nodes
  pub dictionaries : Table
  pub shared : Shared
  pub schema : Fields
  pub schema_updates_performed : ℕ

-- The column builders call RemoveOptional and Inc together, when a value comes for a column that
-- the schema lacks.
unfoldable pub request_column : RecordBuilderExt → ℕ → List ℕ → RecordBuilderExt
unfolding remove_at inc
request_column rb i path = record rb {
  transform_tree = remove_at rb.transform_tree i path;
  shared = inc rb.shared;
}

unfoldable pub is_schema_up_to_date : RecordBuilderExt → Bool
is_schema_up_to_date rb = rb.shared.count == 0

abbrev pub no_events : Shared
no_events = record {
  count = 0;
  dictionaries_with_overflow = [];
  dictionaries_index_type_changed = [];
  dictionary_overflow_detected = 0;
  dictionary_index_type_changed = 0;
}

module _ (arrow : ArrowTypes) where
  unfoldable pub new_record_builder :
      (ℕ → Str) → Option Dictionary → Fields → Result ⊥ RecordBuilderExt
  unfolding new_transform_tree_from new_schema_from
  new_record_builder itoa config prototype =
      new_transform_tree_from itoa config prototype >>= λ made.
      (new_schema_from arrow made.1 prototype made.0 >>= λ fields. ok (record {
        proto_schema = prototype;
        transform_tree = made.0;
        dictionaries = made.1;
        shared = no_events;
        schema = fields;
        schema_updates_performed = 0;
      }))

  unfoldable pub update_schema : RecordBuilderExt → Result ⊥ RecordBuilderExt
  unfolding revert_node new_schema_from reset
  update_schema rb =
      let table = revert_nodes rb.transform_tree rb.dictionaries in
      new_schema_from arrow table rb.proto_schema rb.transform_tree >>= λ fields. ok (record rb {
        dictionaries = table;
        schema = fields;
        shared = reset rb.shared;
        schema_updates_performed = rb.schema_updates_performed + 1;
      })

  -- The schema was not up to date: it is updated, and there is no record.
  unfoldable pub refuse : RecordBuilderExt → Result ⊥ (Option Columns × RecordBuilderExt)
  unfolding update_schema
  refuse rb = update_schema rb >>= λ rb'. ok (none, rb')

  -- NewRecord, with the columns that Arrow's builder gives; `none` is ErrSchemaNotUpToDate.
  unfoldable pub new_record :
      RecordBuilderExt → Columns → Result ⊥ (Option Columns × RecordBuilderExt)
  unfolding is_schema_up_to_date refuse detect_dictionary_overflow
  new_record rb columns =
      if is_schema_up_to_date rb
      then (detect_each arrow rb.schema columns (rb.dictionaries, rb.shared) >>= λ st.
          let rb' = record rb { dictionaries = st.0; shared = st.1 } in
          if is_schema_up_to_date rb' then ok (some columns, rb') else refuse rb')
      else refuse rb
