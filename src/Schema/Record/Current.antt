-- ===== src/Schema/Record/Current.antt =====
-- A schema depends on the shapes of the dictionary fields alone, not on their counters
-- (transform/dictionary.go and schema.go of pkg/otel/common/schema).
use otel_arrow_adapter.Base.{
  ℕ, zero, suc, ◌≡◌, refl, ap, none, some, List, [], ◌∷◌, ok, ◌>>=◌, arith,
}
use otel_arrow_adapter.Schema.Types.{Field, field, Fields, type_of}
use otel_arrow_adapter.Schema.Dictionary.{DictionaryField, index_type}
use otel_arrow_adapter.Schema.Tree.{
  FieldTransform, identity_field, removed_field, dictionary_field, TransformNode, node, Nodes,
  no_nodes, add_node, Table,
}
use otel_arrow_adapter.Schema.NewSchema.{
  ArrowTypes, transform_dictionary, transform, transform_all, new_type, with_type, new_fields,
  new_field_from, each_child, new_schema_from,
}
use otel_arrow_adapter.Schema.Record.Tables.{Shape, shape, shapes}

-- A field with this shape.
abbrev rebuilt : Shape → DictionaryField
rebuilt s = record {
  path = [];
  dict_id = s.dict_id;
  cumulative_total = 0;
  prev_cumulative_total = 0;
  cardinality = 0;
  index_max_card = s.index_max_card;
  index_types = s.index_types;
  current_index = s.current_index;
}

transform_dictionary-shape :
    (t u : DictionaryField) (f : Field)
    → shape t ≡ shape u
    → transform_dictionary t f ≡ transform_dictionary u f
unfolding transform_dictionary index_type
transform_dictionary-shape t u (field name type b m) e =
    ap (λ s. transform_dictionary (rebuilt s) (field name type b m)) e

transform-shapes :
    (table table' : Table) (i : ℕ) (f : Field)
    → shapes table ≡ shapes table'
    → transform table (dictionary_field i) f ≡ transform table' (dictionary_field i) f
unfolding transform
transform-shapes [] [] i f e = refl
transform-shapes [] (u ∷ table') i f e = ground arith
transform-shapes (t ∷ table) [] i f e = ground arith
transform-shapes (t ∷ table) (u ∷ table') zero f e =
    transform_dictionary-shape t u f (ap (λ ss. elim ss [ [] ↦ shape t | s ∷ others ↦ s ]) e)
transform-shapes (t ∷ table) (u ∷ table') (suc i) f e =
    transform-shapes table table' i f (ap (λ ss. elim ss [ [] ↦ [] | s ∷ others ↦ others ]) e)

transform_all-shapes :
    (table table' : Table) (ts : List FieldTransform) (f : Field)
    → shapes table ≡ shapes table'
    → transform_all table ts f ≡ transform_all table' ts f
unfolding transform_all transform
transform_all-shapes table table' [] f e = refl
transform_all-shapes table table' (identity_field ∷ ts) f e =
    transform_all-shapes table table' ts f e
transform_all-shapes table table' (removed_field ∷ ts) f e = refl
transform_all-shapes table table' (dictionary_field i ∷ ts) f e = λ k.
    transform-shapes table table' i f e k >>= λ r. elim r [
      | none ↦ ok none
      | some g ↦ transform_all-shapes table table' ts g e k
    ]

module _ (arrow : ArrowTypes) (table table' : Table) (same : shapes table ≡ shapes table') where
  mutual
    unfolding new_field_from

    new_field_from-shapes :
        (n : TransformNode) → new_field_from arrow table n ≡ new_field_from arrow table' n
    new_field_from-shapes (node name ts children) = λ k f.
        transform_all-shapes table table' ts f same k >>= λ r. elim r [
          | none ↦ ok none
          | some g ↦
              new_type arrow (type_of g) (each_child-shapes children k) >>= λ t. ok (with_type g t)
        ]

    each_child-shapes : (ns : Nodes) → each_child arrow table ns ≡ each_child arrow table' ns
    each_child-shapes no_nodes = refl
    each_child-shapes (add_node n ns) = λ k. new_field_from-shapes n k ∷ each_child-shapes ns k

  pub new_schema_from-shapes :
      (fs : Fields) (ns : Nodes)
      → new_schema_from arrow table fs ns ≡ new_schema_from arrow table' fs ns
  unfolding new_schema_from
  new_schema_from-shapes fs ns = ap (new_fields fs) (each_child-shapes ns)
