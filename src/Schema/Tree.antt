-- ===== src/Schema/Tree.antt =====
-- The tree of transformations of a prototype schema (transform_node.go of
-- pkg/otel/common/schema). The dictionary fields that the nodes point to stand in a table, in the
-- order of their ids, and a node holds their positions.
use otel_arrow_adapter.Base.{
  ℕ, if◌then◌else◌, List, [], ◌∷◌, ◌++◌, Option, none, some, Str, str_eq, length, Result, ok, panic,
  ◌>>=◌,
}
use otel_arrow_adapter.Schema.Types.{
  optional, dictionary_key, Metadata, DataType, plain, dictionary, struct_of, list_of, union_of,
  map_of, Field, field, Fields, no_fields, add_field, find_key,
}
use otel_arrow_adapter.Schema.Dictionary.{
  Dictionary, DictionaryField, new_dictionary_from, new_dictionary_field, max_uint8, max_uint16,
}

pub data FieldTransform : Type 0 where
  identity_field : FieldTransform
  removed_field : FieldTransform
  dictionary_field : ℕ → FieldTransform

mutual
  pub data TransformNode : Type 0 where
    node : Str → List FieldTransform → Nodes → TransformNode

  pub data Nodes : Type 0 where
    no_nodes : Nodes
    add_node : TransformNode → Nodes → Nodes

abbrev pub Table : Type 0
Table = List DictionaryField

abbrev pub Made : Type 0 → Type 0
Made A = Result ⊥ (A × Table)

-- The path of a field: the names from the root, with dots.
unfoldable pub join : Str → Str → Str
join [] name = name
join (c ∷ path) name = (c ∷ path) ++ 46 ∷ name

-- `8` and `16` as strings
abbrev pub width_8 : Str
width_8 = 56 ∷ []

abbrev pub width_16 : Str
width_16 = 49 ∷ 54 ∷ []

-- The configuration for the width that the metadata asks for. NewDictionaryFrom reads the pointer it
-- is given: `panic` is a nil one.
unfoldable pub local_config : Option Dictionary → Str → Result ⊥ (Option Dictionary)
unfolding new_dictionary_from
local_config config width =
    let narrowed : ℕ → Result ⊥ (Option Dictionary) =
      λ min. elim config [ none ↦ panic | some c ↦ ok (some (new_dictionary_from min c)) ] in
    if str_eq width width_8
    then narrowed max_uint8
    else if str_eq width width_16
    then narrowed max_uint16
    else ok config

abbrev pub optional_transforms : Metadata → List FieldTransform
optional_transforms metadata = elim (find_key optional metadata) [
  | none ↦ []
  | some v ↦ removed_field ∷ []
]

abbrev pub or_identity : List FieldTransform → List FieldTransform
or_identity [] = identity_field ∷ []
or_identity (t ∷ ts) = t ∷ ts

module _ (itoa : ℕ → Str) where
  -- A dictionary field at the end of the table, and the transformation that points to it.
  unfoldable pub add_dictionary : Option Dictionary → Str → Table → Made (List FieldTransform)
  add_dictionary config path table = elim (new_dictionary_field path (itoa (length table)) config) [
    | none ↦ panic
    | some t ↦ ok (dictionary_field (length table) ∷ [], table ++ t ∷ [])
  ]

  -- The transformations that the metadata asks for.
  unfoldable pub own_dictionary :
      Option Dictionary → Str → Metadata → Table → Made (List FieldTransform)
  unfolding find_key local_config add_dictionary
  own_dictionary config path metadata table = elim (find_key dictionary_key metadata) [
    | none ↦ ok ([], table)
    | some width ↦ local_config config width >>= λ local. add_dictionary local path table
  ]

  unfoldable mutual
    unfolding own_dictionary join

    pub new_transform_node_from : Option Dictionary → Str → Field → Table → Made TransformNode
    new_transform_node_from config path (field name type nullable metadata) table =
        own_dictionary config (join path name) metadata table >>= λ own.
        let own_transforms : List FieldTransform =
          or_identity (optional_transforms metadata ++ own.0) in
        (new_children config (join path name) type own.1 >>= λ below.
        ok (node name (own_transforms ++ below.0.0) below.0.1, below.1))

    -- The switch on the type: the transformation of an Arrow dictionary, and the children.
    pub new_children :
        Option Dictionary → Str → DataType → Table → Made (List FieldTransform × Nodes)
    new_children config path (plain p) table = ok (([], no_nodes), table)
    new_children config path (dictionary index value) table =
        add_dictionary config path table >>= λ r. ok ((r.0, no_nodes), r.1)
    new_children config path (struct_of fields) table =
        new_nodes config path fields table >>= λ r. ok (([], r.0), r.1)
    new_children config path (list_of elem) table =
        new_transform_node_from config path elem table >>= λ r.
        ok (([], add_node r.0 no_nodes), r.1)
    new_children config path (union_of mode fields codes) table =
        new_nodes config path fields table >>= λ r. ok (([], r.0), r.1)
    new_children config path (map_of key item) table =
        new_transform_node_from config path key table >>= λ k.
        (new_transform_node_from config path item k.1 >>= λ v.
        ok (([], add_node k.0 (add_node v.0 no_nodes)), v.1))

    -- The loop over child fields.
    pub new_nodes : Option Dictionary → Str → Fields → Table → Made Nodes
    new_nodes config path no_fields table = ok (no_nodes, table)
    new_nodes config path (add_field f fs) table =
        new_transform_node_from config path f table >>= λ r.
        (new_nodes config path fs r.1 >>= λ rest. ok (add_node r.0 rest.0, rest.1))

  -- The root has the fields of the prototype as children.
  unfoldable pub new_transform_tree_from : Option Dictionary → Fields → Made Nodes
  unfolding new_nodes
  new_transform_tree_from config prototype = new_nodes config [] prototype []

-- RemoveOptional
unfoldable pub without_removed : List FieldTransform → List FieldTransform
without_removed [] = []
without_removed (identity_field ∷ ts) = identity_field ∷ without_removed ts
without_removed (removed_field ∷ ts) = without_removed ts
without_removed (dictionary_field i ∷ ts) = dictionary_field i ∷ without_removed ts

unfoldable pub remove_optional : TransformNode → TransformNode
unfolding without_removed
remove_optional (node name transforms children) =
    node name (or_identity (without_removed transforms)) children
