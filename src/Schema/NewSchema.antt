-- ===== src/Schema/NewSchema.antt =====
-- The schema that a transformation tree makes of its prototype (schema.go and transform/ of
-- pkg/otel/common/schema). The fields that Arrow gives the element of a list and the entries of a
-- map are parameters.
pub mod Adapted
pub mod Transforms
pub mod Trees
pub mod Adapts
use otel_arrow_adapter.Base.{
  ℕ, Bool, List, [], ◌∷◌, ◌++◌, Option, none, some, get_elem?, Result, ok, panic, ◌>>=◌,
}
use otel_arrow_adapter.Schema.Types.{
  Key, optional, dictionary_key, dict_id_key, other_key, Metadata, Mode, DataType, plain,
  dictionary, struct_of, list_of, union_of, map_of, Field, field, Fields, no_fields, add_field,
  type_of, metadata_of,
}
use otel_arrow_adapter.Schema.Dictionary.{DictionaryField, index_type}
use otel_arrow_adapter.Schema.Tree.{
  FieldTransform, identity_field, removed_field, dictionary_field, TransformNode, node, Nodes,
  no_nodes, add_node, Table,
}

-- arrow.ListOf and arrow.MapOfWithMetadata: the fields they make of types and metadata. ValueField
-- of a map type, from its key and item fields.
pub record ArrowTypes : Type 0 where
  pub list_elem : DataType → Field
  pub map_key : DataType → Metadata → Field
  pub map_item : DataType → Metadata → Field
  pub map_value : Field → Field → Field

unfoldable pub clean_metadata : Metadata → Metadata
clean_metadata [] = []
clean_metadata ((optional, v) ∷ rest) = clean_metadata rest
clean_metadata ((dictionary_key, v) ∷ rest) = clean_metadata rest
clean_metadata ((dict_id_key, v) ∷ rest) = (dict_id_key, v) ∷ clean_metadata rest
clean_metadata ((other_key k, v) ∷ rest) = (other_key k, v) ∷ clean_metadata rest

-- The type of a dictionary's values; another type is that of the values already.
abbrev pub value_type : DataType → DataType
value_type (dictionary index value) = value
value_type type = type

-- DictionaryField.Transform. IndexType panics on an index out of range.
unfoldable pub transform_dictionary : DictionaryField → Field → Result ⊥ (Option Field)
transform_dictionary t (field name type nullable metadata) = elim t.index_types [
  | [] ↦ ok (some (field name (value_type type) nullable metadata))
  | first ∷ others ↦ elim (index_type t) [
    | none ↦ panic
    | some index ↦ ok (
        some (
          field name (dictionary index (value_type type)) nullable
            (metadata ++ (dict_id_key, t.dict_id) ∷ [])))
  ]
]

-- The Transform method of each transformation; `none` is nil.
unfoldable pub transform : Table → FieldTransform → Field → Result ⊥ (Option Field)
unfolding transform_dictionary
transform table identity_field f = ok (some f)
transform table removed_field f = ok none
transform table (dictionary_field i) f = elim (get_elem? table i) [
  | none ↦ panic
  | some t ↦ transform_dictionary t f
]

unfoldable pub transform_all : Table → List FieldTransform → Field → Result ⊥ (Option Field)
unfolding transform
transform_all table [] f = ok (some f)
transform_all table (t ∷ ts) f =
    transform table t f >>= λ r. elim r [ none ↦ ok none | some g ↦ transform_all table ts g ]

abbrev pub keep : Option Field → Fields → Fields
keep none fs = fs
keep (some f) fs = add_field f fs

abbrev pub keep_code : Option Field → ℕ → List ℕ → List ℕ
keep_code none code codes = codes
keep_code (some f) code codes = code ∷ codes

-- `newField.Type` of a nil pointer panics.
abbrev pub of_elem : ArrowTypes → Option Field → Result ⊥ (Option DataType)
of_elem arrow none = panic
of_elem arrow (some f) = ok (some (list_of (arrow.list_elem (type_of f))))

abbrev pub of_entry : ArrowTypes → Option Field → Option Field → Option DataType
of_entry arrow (some k) (some v) = some (
    map_of (arrow.map_key (type_of k) (metadata_of k)) (arrow.map_item (type_of v) (metadata_of v)))
of_entry arrow _ _ = none

-- The result has the type, or is nil where there is none.
abbrev pub with_type : Field → Option DataType → Option Field
with_type f none = none
with_type (field name type nullable metadata) (some t) =
    some (field name t nullable (clean_metadata metadata))

-- NewFieldFrom on one child of a node.
abbrev pub Child : Type 0
Child = Field → Result ⊥ (Option Field)

-- The loop over the fields of a struct. A child that the tree lacks is an index out of range.
unfoldable pub new_fields : Fields → List Child → Result ⊥ Fields
new_fields no_fields children = ok no_fields
new_fields (add_field f fs) [] = panic
new_fields (add_field f fs) (c ∷ cs) = c f >>= λ g. (new_fields fs cs >>= λ gs. ok (keep g gs))

-- The loop over the fields of a union, with their type codes.
unfoldable pub new_variants : Fields → List ℕ → List Child → Result ⊥ (Fields × List ℕ)
new_variants no_fields codes children = ok (no_fields, [])
new_variants (add_field f fs) codes [] = panic
new_variants (add_field f fs) [] (c ∷ cs) =
    c f >>= λ g. elim g [ none ↦ new_variants fs [] cs | some h ↦ panic ]
new_variants (add_field f fs) (code ∷ codes) (c ∷ cs) =
    c f >>= λ g. (new_variants fs codes cs >>= λ r. ok (keep g r.0, keep_code g code r.1))

module _ (arrow : ArrowTypes) where
  -- The switch on the type; `none` is the map that loses its key or its value.
  unfoldable pub new_type : DataType → List Child → Result ⊥ (Option DataType)
  unfolding new_fields new_variants
  new_type (struct_of fs) children = new_fields fs children >>= λ gs. ok (some (struct_of gs))
  new_type (list_of elem) [] = panic
  new_type (list_of elem) (c ∷ cs) = c elem >>= λ g. of_elem arrow g
  new_type (union_of mode fs codes) children =
      new_variants fs codes children >>= λ r. ok (some (union_of mode r.0 r.1))
  new_type (map_of key item) (k ∷ v ∷ cs) =
      k key >>= λ new_key. (v item >>= λ new_item. ok (of_entry arrow new_key new_item))
  new_type (map_of key item) _ = panic
  new_type (plain p) children = ok (some (plain p))
  new_type (dictionary index value) children = ok (some (dictionary index value))

  module _ (table : Table) where
    unfoldable mutual
      unfolding transform_all new_type

      pub new_field_from : TransformNode → Field → Result ⊥ (Option Field)
      new_field_from (node name transforms children) f = transform_all table transforms f >>= λ r.
          elim r [
            | none ↦ ok none
            | some g ↦ new_type (type_of g) (each_child children) >>= λ t. ok (with_type g t)
          ]

      pub each_child : Nodes → List Child
      each_child no_nodes = []
      each_child (add_node n ns) = new_field_from n ∷ each_child ns

    -- The fields of the new schema; its metadata is cleaned in the same way.
    unfoldable pub new_schema_from : Fields → Nodes → Result ⊥ Fields
    unfolding new_field_from new_fields
    new_schema_from prototype children = new_fields prototype (each_child children)
