-- ===== src/Schema/NewSchema/Adapted.antt =====
-- What a schema made by a transformation tree keeps of its prototype (schema.go of
-- pkg/otel/common/schema): the prototypes, the trees that fit them, and the fields adapted to them.
use otel_arrow_adapter.Base.{
  ℕ, suc, ◌≡◌, ◌⊎◌, Bool, true, false, ◌||◌, Option, none, some, List, [], ◌∷◌, ◌<◌, ◌≤◌, length,
  Result, ok,
}
use otel_arrow_adapter.Schema.Types.{
  optional, dictionary_key, dict_id_key, other_key, Metadata, DataType, plain, dictionary,
  struct_of, list_of, union_of, map_of, Field, field, Fields, no_fields, add_field, find_key,
  type_of, metadata_of,
}
use otel_arrow_adapter.Schema.Dictionary.{IndexType}
use otel_arrow_adapter.Schema.Tree.{
  FieldTransform, identity_field, removed_field, dictionary_field, TransformNode, node, Nodes,
  no_nodes, add_node,
}
use otel_arrow_adapter.Schema.NewSchema.{ArrowTypes, Child}

-- The metadata that has nothing to do with transformations.
unfoldable pub strip : Metadata → Metadata
strip [] = []
strip ((optional, v) ∷ rest) = strip rest
strip ((dictionary_key, v) ∷ rest) = strip rest
strip ((dict_id_key, v) ∷ rest) = strip rest
strip ((other_key k, v) ∷ rest) = (other_key k, v) ∷ strip rest

abbrev pub has_optional : Metadata → Bool
has_optional metadata = elim (find_key optional metadata) [ none ↦ false | some v ↦ true ]

-- A field that a tree may remove: an optional one, or a map whose key or item may be removed.
unfoldable mutual
  pub is_removable : Field → Bool
  is_removable (field name type nullable metadata) = has_optional metadata || loses_entry type

  pub loses_entry : DataType → Bool
  loses_entry (map_of key item) = is_removable key || is_removable item
  loses_entry _ = false

abbrev pub count : Fields → ℕ
count no_fields = 0
count (add_field f fs) = suc (count fs)

-- A prototype: the element of a list cannot be removed, a union has a code for each field, and the
-- values of a dictionary have no fields.
unfoldable mutual
  unfolding is_removable

  pub IsPrototype : Field → Type 0
  IsPrototype (field name type nullable metadata) = IsPrototypeType type

  pub IsPrototypeType : DataType → Type 0
  IsPrototypeType (plain p) = Unit
  IsPrototypeType (dictionary index value) = (p : ℕ) × (value ≡ plain p)
  IsPrototypeType (struct_of fs) = ArePrototypes fs
  IsPrototypeType (list_of elem) = (is_removable elem ≡ false) × IsPrototype elem
  IsPrototypeType (union_of mode fs codes) = (count fs ≤ length codes) × ArePrototypes fs
  IsPrototypeType (map_of key item) = IsPrototype key × IsPrototype item

  pub ArePrototypes : Fields → Type 0
  ArePrototypes no_fields = Unit
  ArePrototypes (add_field f fs) = IsPrototype f × ArePrototypes fs

-- The transformations of a field with this metadata: only an optional field is removed, and the
-- dictionaries are in a table of this size.
unfoldable pub Allowed : ℕ → Metadata → List FieldTransform → Type 0
Allowed size metadata [] = Unit
Allowed size metadata (identity_field ∷ ts) = Allowed size metadata ts
Allowed size metadata (removed_field ∷ ts) =
    (has_optional metadata ≡ true) × Allowed size metadata ts
Allowed size metadata (dictionary_field i ∷ ts) = (i < size) × Allowed size metadata ts

-- A tree has the shape of its prototype.
unfoldable mutual
  unfolding Allowed

  pub Fits : ℕ → Field → TransformNode → Type 0
  Fits size (field name type nullable metadata) (node n ts children) =
      Allowed size metadata ts × FitsType size type children

  pub FitsType : ℕ → DataType → Nodes → Type 0
  FitsType size (plain p) children = children ≡ no_nodes
  FitsType size (dictionary index value) children = children ≡ no_nodes
  FitsType size (struct_of fs) children = AllFit size fs children
  FitsType size (list_of elem) no_nodes = ⊥
  FitsType size (list_of elem) (add_node n ns) = Fits size elem n × (ns ≡ no_nodes)
  FitsType size (union_of mode fs codes) children = AllFit size fs children
  FitsType size (map_of key item) (add_node k (add_node v ns)) =
      Fits size key k × Fits size item v × (ns ≡ no_nodes)
  FitsType size (map_of key item) _ = ⊥

  pub AllFit : ℕ → Fields → Nodes → Type 0
  AllFit size no_fields children = children ≡ no_nodes
  AllFit size (add_field f fs) no_nodes = ⊥
  AllFit size (add_field f fs) (add_node n ns) = Fits size f n × AllFit size fs ns

abbrev pub IsDictionaryOf : DataType → DataType → Type 0
IsDictionaryOf value type = (index : IndexType) × (type ≡ dictionary index value)

-- The second field is the first one adapted: the same name and nullability, the same metadata but
-- for the keys of transformations, and the type with dictionaries made or undone, and with some
-- removable fields left out.
module _ (arrow : ArrowTypes) where
  unfoldable mutual
    unfolding is_removable strip

    pub Adapted : Field → Field → Type 0
    Adapted (field name type nullable metadata) (field name' type' nullable' metadata') =
        (name' ≡ name)
        × (nullable' ≡ nullable)
        × (strip metadata' ≡ strip metadata)
        × (find_key optional metadata' ≡ none)
        × (find_key dictionary_key metadata' ≡ none)
        × AdaptedType type type'

    pub AdaptedType : DataType → DataType → Type 0
    AdaptedType (plain p) type = (type ≡ plain p) ⊎ IsDictionaryOf (plain p) type
    AdaptedType (dictionary index value) type = (type ≡ value) ⊎ IsDictionaryOf value type
    AdaptedType (struct_of fs) type =
        ((gs : Fields) × (type ≡ struct_of gs) × AdaptedFields fs gs)
        ⊎ IsDictionaryOf (struct_of fs) type
    AdaptedType (list_of (field name elem nullable metadata)) type =
        ((t : DataType) × (type ≡ list_of (arrow.list_elem t)) × AdaptedType elem t)
        ⊎ IsDictionaryOf (list_of (field name elem nullable metadata)) type
    AdaptedType (union_of mode fs codes) type =
        ((gs : Fields) × (kept : List ℕ) × (type ≡ union_of mode gs kept)
          × AdaptedVariants fs codes gs kept)
        ⊎ IsDictionaryOf (union_of mode fs codes) type
    AdaptedType (map_of key item) type =
        ((k : Field) × (v : Field) × (type
            ≡ map_of (arrow.map_key (type_of k) (metadata_of k))
                (arrow.map_item (type_of v) (metadata_of v)))
          × Adapted key k
          × Adapted item v)
        ⊎ IsDictionaryOf (map_of key item) type

    pub AdaptedFields : Fields → Fields → Type 0
    AdaptedFields no_fields gs = gs ≡ no_fields
    AdaptedFields (add_field f fs) gs =
        ((is_removable f ≡ true) × AdaptedFields fs gs)
        ⊎ ((g : Field) × (rest : Fields) × (gs ≡ add_field g rest)
            × Adapted f g
            × AdaptedFields fs rest)

    -- A field that is kept keeps its type code.
    pub AdaptedVariants : Fields → List ℕ → Fields → List ℕ → Type 0
    AdaptedVariants no_fields codes gs kept = (gs ≡ no_fields) × (kept ≡ [])
    AdaptedVariants (add_field f fs) [] gs kept = ⊥
    AdaptedVariants (add_field f fs) (code ∷ codes) gs kept =
        ((is_removable f ≡ true) × AdaptedVariants fs codes gs kept)
        ⊎ ((g : Field) × (rest : Fields) × (others : List ℕ) × (gs ≡ add_field g rest)
            × (kept ≡ code ∷ others)
            × Adapted f g
            × AdaptedVariants fs codes rest others)

  -- A call on a field that returns it adapted, or nil where it is removable.
  unfoldable pub Returns : Field → Result ⊥ (Option Field) → Type 0
  unfolding Adapted
  Returns f (ok none) = is_removable f ≡ true
  Returns f (ok (some g)) = Adapted f g
  Returns f _ = ⊥

  unfoldable pub EachReturns : Fields → List Child → Type 0
  unfolding Returns
  EachReturns no_fields cs = Unit
  EachReturns (add_field f fs) [] = ⊥
  EachReturns (add_field f fs) (c ∷ cs) = Returns f (c f) × EachReturns fs cs
