-- ===== src/Examples/Schemas.antt =====
-- A record builder for a small prototype: an optional string with a dictionary, and a struct of a
-- list and a dictionary.
use otel_arrow_adapter.Base.{
  ℕ, ◌+◌, ◌≤◌, ◌≡◌, refl, sym, subst, ◌∙◌, ok_injective, inl, inr, Bool, true, false, ◌==◌, err,
  panic, Option, none, some, [], ◌∷◌, ok, arith, Str, str_eq,
}
use otel_arrow_adapter.Schema.Types.{
  optional, dictionary_key, dict_id_key, plain, dictionary, struct_of, list_of, Field, field,
  Fields, no_fields, add_field, find_key,
}
use otel_arrow_adapter.Schema.Dictionary.{
  uint8, uint16, Dictionary, DictionaryField, new_dictionary_field, index_type, set_cardinality,
}
use otel_arrow_adapter.Schema.Tree.{
  identity_field, removed_field, dictionary_field, node, Nodes, no_nodes, add_node, Table,
  new_transform_tree_from,
}
use otel_arrow_adapter.Schema.NewSchema.{ArrowTypes, new_schema_from, clean_metadata}
use otel_arrow_adapter.Schema.NewSchema.Adapted.{ArePrototypes, AllFit, AdaptedFields}
use otel_arrow_adapter.Schema.NewSchema.Transforms.{AllValid}
use otel_arrow_adapter.Schema.NewSchema.Adapts.{new_schema_from-Adapted}
use otel_arrow_adapter.Schema.NewSchema.Trees.{Grows, new_transform_tree_from-Grows}
use otel_arrow_adapter.Schema.Record.{
  Columns, no_columns, add_column, dictionary_column, other_column, struct_column, list_column,
  RecordBuilderExt, new_record_builder, request_column, new_record, no_events,
}
use otel_arrow_adapter.Schema.Record.Steps.{IsConsistent, new_record_builder-IsConsistent}
use otel_arrow_adapter.Schema.Record.Returns.{EachFits}
use otel_arrow_adapter.Schema.Record.Attempts.{Recorded, new_record-Recorded}
use otel_arrow_adapter.Schema.Record.Life.{
  BuilderSteps, no_step, then_step, requests, records, steps-IsConsistent, updates-bounded, pending,
  total_removed,
}
use otel_arrow_adapter.Schema.Record.Tables.{total_room}

-- Arrow's names for the parts of lists and maps.
abbrev arrow : ArrowTypes
arrow = record {
  list_elem = λ t. field (105 ∷ []) t true [];
  map_key = λ t m. field (107 ∷ []) t false m;
  map_item = λ t m. field (118 ∷ []) t true m;
  map_value = λ k v. field (101 ∷ []) (struct_of (add_field k (add_field v no_fields))) false [];
}

abbrev itoa : ℕ → Str
itoa n = (48 + n) ∷ []

abbrev config : Dictionary
config = record { min_card = 255; max_card = 65535 }

abbrev name_field : Field
name_field = field (97 ∷ []) (plain 1) true ((optional, 116 ∷ []) ∷ (dictionary_key, 56 ∷ []) ∷ [])

abbrev list_field : Field
list_field = field (108 ∷ []) (list_of (field (105 ∷ []) (plain 2) true [])) true []

abbrev code_field : Field
code_field = field (99 ∷ []) (dictionary uint8 (plain 1)) true []

abbrev prototype : Fields
prototype = add_field name_field (
    add_field
      (field (115 ∷ []) (struct_of (add_field list_field (add_field code_field no_fields))) true [])
      no_fields)

abbrev first_field : DictionaryField
first_field = record {
  path = 97 ∷ [];
  dict_id = 48 ∷ [];
  cumulative_total = 0;
  prev_cumulative_total = 0;
  cardinality = 0;
  index_max_card = 255 ∷ 65535 ∷ [];
  index_types = uint8 ∷ uint16 ∷ [];
  current_index = 0;
}

abbrev table : Table
table = first_field ∷ record first_field { path = 115 ∷ 46 ∷ 99 ∷ []; dict_id = 49 ∷ [] } ∷ []

abbrev children : Nodes
children =
    add_node
      (node (108 ∷ []) (identity_field ∷ [])
        (add_node (node (105 ∷ []) (identity_field ∷ []) no_nodes) no_nodes))
      (add_node (node (99 ∷ []) (identity_field ∷ dictionary_field 1 ∷ []) no_nodes) no_nodes)

abbrev tree : Nodes
tree =
    add_node (node (97 ∷ []) (removed_field ∷ dictionary_field 0 ∷ []) no_nodes)
      (add_node (node (115 ∷ []) (identity_field ∷ []) children) no_nodes)

tree_made : new_transform_tree_from itoa (some config) prototype ≡ ok (tree, table)
unfolding new_transform_tree_from str_eq new_dictionary_field
tree_made = refl

new_transform_tree_from-Grows_example :
    Grows
      (λ size ns. AllFit size prototype ns)
      []
      (new_transform_tree_from itoa (some config) prototype)
new_transform_tree_from-Grows_example =
    new_transform_tree_from-Grows itoa config (omega arith, omega arith) prototype

table-AllValid : AllValid table
table-AllValid = (
  record { cards = refl; lengths = refl; in_range = inr (omega arith) },
  (record { cards = refl; lengths = refl; in_range = inr (omega arith) }, tt),
)

prototype-ArePrototypes : ArePrototypes prototype
unfolding ArePrototypes find_key
prototype-ArePrototypes = (tt, (((refl, tt), ((1, refl), tt)), tt))

tree-AllFit : AllFit 2 prototype tree
unfolding AllFit find_key
tree-AllFit = (
  ((refl, (omega arith, tt)), refl),
  ((tt, ((tt, ((tt, refl), refl)), (((omega arith, tt), refl), refl))), refl),
)

new_schema_from-Adapted_example :
    (gs : Fields) × (new_schema_from arrow table prototype tree ≡ ok gs)
    × AdaptedFields arrow prototype gs
new_schema_from-Adapted_example =
    new_schema_from-Adapted arrow table table-AllValid prototype tree prototype-ArePrototypes
      tree-AllFit

-- The schema at the start: the optional field is missing.
abbrev first_schema : Fields
first_schema =
    add_field
      (field (115 ∷ [])
        (struct_of (
          add_field list_field (
            add_field
              (field (99 ∷ []) (dictionary uint8 (plain 1)) true ((dict_id_key, 49 ∷ []) ∷ []))
              no_fields)))
        true [])
      no_fields

abbrev fresh : RecordBuilderExt
fresh = record {
  proto_schema = prototype;
  transform_tree = tree;
  dictionaries = table;
  shared = no_events;
  schema = first_schema;
  schema_updates_performed = 0;
}

fresh_made : new_record_builder arrow itoa (some config) prototype ≡ ok fresh
unfolding new_record_builder str_eq new_dictionary_field index_type clean_metadata
fresh_made = refl

new_record_builder-IsConsistent_example :
    (rb : RecordBuilderExt) × (new_record_builder arrow itoa (some config) prototype ≡ ok rb)
    × IsConsistent arrow rb
new_record_builder-IsConsistent_example =
    new_record_builder-IsConsistent arrow itoa config prototype (omega arith, omega arith)
      prototype-ArePrototypes

fresh-IsConsistent : IsConsistent arrow fresh
fresh-IsConsistent =
    let (rb, e, k) =
      new_record_builder-IsConsistent arrow itoa config prototype (omega arith, omega arith)
        prototype-ArePrototypes in
    subst (IsConsistent arrow) (ok_injective (sym e ∙ fresh_made)) k

-- The optional column comes, and the next record is refused.
abbrev asked : RecordBuilderExt
asked = request_column fresh 0 []

abbrev full_schema : Fields
full_schema =
    add_field (field (97 ∷ []) (dictionary uint8 (plain 1)) true ((dict_id_key, 48 ∷ []) ∷ []))
      first_schema

abbrev updated : RecordBuilderExt
updated = record fresh {
  transform_tree =
      add_node (node (97 ∷ []) (dictionary_field 0 ∷ []) no_nodes)
        (add_node (node (115 ∷ []) (identity_field ∷ []) children) no_nodes);
  schema = full_schema;
  schema_updates_performed = 1;
}

asked_refused : new_record arrow asked no_columns ≡ ok (none, updated)
unfolding new_record request_column index_type clean_metadata
asked_refused = refl

abbrev columns_of : ℕ → Columns
columns_of card = add_column (dictionary_column 9 card) (
    add_column
      (struct_column
        (add_column (list_column other_column) (add_column (dictionary_column 9 3) no_columns)))
      no_columns)

life : BuilderSteps arrow fresh updated
unfolding total_removed request_column
life =
    then_step (then_step no_step (requests 0 [] (inl (omega arith))))
      (records no_columns none asked_refused)

steps-IsConsistent_example : IsConsistent arrow updated
steps-IsConsistent_example = steps-IsConsistent arrow fresh updated life fresh-IsConsistent

updates-bounded_example :
    updated.schema_updates_performed
    ≤ fresh.schema_updates_performed
      + pending fresh
      + total_removed fresh.transform_tree
      + total_room fresh.dictionaries
updates-bounded_example = updates-bounded arrow fresh updated life fresh-IsConsistent

-- Three values are fine.
abbrev after_three : RecordBuilderExt
after_three = record updated {
  dictionaries =
      record first_field { cumulative_total = 9; cardinality = 3 }
      ∷ record first_field {
        path = 115 ∷ 46 ∷ 99 ∷ [];
        dict_id = 49 ∷ [];
        cumulative_total = 9;
        cardinality = 3;
      }
      ∷ [];
}

record_taken : new_record arrow updated (columns_of 3) ≡ ok (some (columns_of 3), after_three)
unfolding new_record str_eq find_key set_cardinality
record_taken = refl

new_record-Recorded_example :
    (r : Option Columns × RecordBuilderExt) × (new_record arrow updated (columns_of 3) ≡ ok r)
    × Recorded arrow updated (columns_of 3) r
unfolding EachFits find_key str_eq
new_record-Recorded_example =
    new_record-Recorded arrow updated (columns_of 3)
      (steps-IsConsistent arrow fresh updated life fresh-IsConsistent)
      (refl, ((tt, (refl, tt)), tt))

-- Three hundred need a wider index type.
abbrev refused_three_hundred : Bool
refused_three_hundred = elim (new_record arrow updated (columns_of 300)) [
  | ok r ↦ elim r.0 [ none ↦ r.1.schema_updates_performed == 2 | some cs ↦ false ]
  | err e ↦ false
  | panic ↦ false
]

three_hundred_refused : refused_three_hundred ≡ true
unfolding new_record str_eq find_key set_cardinality index_type clean_metadata
three_hundred_refused = refl
