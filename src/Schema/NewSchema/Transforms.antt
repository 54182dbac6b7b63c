-- ===== src/Schema/NewSchema/Transforms.antt =====
-- The transformations of one field (schema.go and transform/ of pkg/otel/common/schema).
use otel_arrow_adapter.Base.{
  ℕ, zero, suc, ◌<◌, ◌≡◌, refl, ap, ◌∙◌, ◌⊎◌, inl, inr, ◌≢◌, Bool, true, Option, none, some, List,
  [], ◌∷◌, ◌++◌, length, get_elem?, Result, ok, err, panic, ◌>>=◌, arith, Str, Option-cases,
}
use otel_arrow_adapter.Schema.Types.{
  optional, dictionary_key, dict_id_key, other_key, Metadata, DataType, dictionary, Field, field,
  find_key,
}
use otel_arrow_adapter.Schema.Dictionary.{DictionaryField, IndexType, index_type}
use otel_arrow_adapter.Schema.Dictionary.Updates.{IsValid}
use otel_arrow_adapter.Schema.Tree.{
  FieldTransform, identity_field, removed_field, dictionary_field, Table,
}
use otel_arrow_adapter.Schema.NewSchema.{
  value_type, clean_metadata, transform_dictionary, transform, transform_all,
}
use otel_arrow_adapter.Schema.NewSchema.Adapted.{strip, has_optional, Allowed, IsDictionaryOf}

-- The dictionary fields of a table are valid.
abbrev pub AllValid : Table → Type 0
AllValid [] = Unit
AllValid (t ∷ table) = IsValid t × AllValid table

pub entry-IsValid :
    (table : Table) (i : ℕ)
    → AllValid table
    → i < length table
    → (t : DictionaryField) × (get_elem? table i ≡ some t) × IsValid t
entry-IsValid [] i v h = ground arith
entry-IsValid (t ∷ table) zero (v, vs) h = (t, refl, v)
entry-IsValid (t ∷ table) (suc i) (v, vs) h = entry-IsValid table i vs (omega arith)

pub index_type-some :
    (t : DictionaryField) (first : IndexType) (others : List IndexType)
    → IsValid t
    → t.index_types ≡ first ∷ others
    → (index : IndexType) × (index_type t ≡ some index)
unfolding index_type
index_type-some t first others v e = elim (Option-cases (get_elem? t.index_types t.current_index)) [
  | inl missing ↦ absurd (in_list t.index_types t.current_index (ground arith) missing)
  | inr found ↦ found
]
  where
    in_list : (types : List IndexType) (i : ℕ) → i < length types → get_elem? types i ≢ none
    in_list [] i h = ground arith
    in_list (ty ∷ types) zero h = ground arith
    in_list (ty ∷ types) (suc i) h = in_list types i (omega arith)

strip-dict_id : (m : Metadata) (id : Str) → strip (m ++ (dict_id_key, id) ∷ []) ≡ strip m
unfolding strip
strip-dict_id [] id = refl
strip-dict_id ((optional, v) ∷ rest) id = strip-dict_id rest id
strip-dict_id ((dictionary_key, v) ∷ rest) id = strip-dict_id rest id
strip-dict_id ((dict_id_key, v) ∷ rest) id = strip-dict_id rest id
strip-dict_id ((other_key k, v) ∷ rest) id = ap (λ t. (other_key k, v) ∷ t) (strip-dict_id rest id)

-- Cleaning leaves the rest of the metadata, and no key of a transformation.
pub strip-clean_metadata : (m : Metadata) → strip (clean_metadata m) ≡ strip m
unfolding strip clean_metadata
strip-clean_metadata [] = refl
strip-clean_metadata ((optional, v) ∷ rest) = strip-clean_metadata rest
strip-clean_metadata ((dictionary_key, v) ∷ rest) = strip-clean_metadata rest
strip-clean_metadata ((dict_id_key, v) ∷ rest) = strip-clean_metadata rest
strip-clean_metadata ((other_key k, v) ∷ rest) =
    ap (λ t. (other_key k, v) ∷ t) (strip-clean_metadata rest)

pub clean_metadata-clean :
    (m : Metadata)
    → (find_key optional (clean_metadata m) ≡ none)
      × (find_key dictionary_key (clean_metadata m) ≡ none)
unfolding find_key clean_metadata
clean_metadata-clean [] = (refl, refl)
clean_metadata-clean ((optional, v) ∷ rest) = clean_metadata-clean rest
clean_metadata-clean ((dictionary_key, v) ∷ rest) = clean_metadata-clean rest
clean_metadata-clean ((dict_id_key, v) ∷ rest) = clean_metadata-clean rest
clean_metadata-clean ((other_key k, v) ∷ rest) = clean_metadata-clean rest

-- The type of values, or a dictionary of them.
abbrev pub ShapeOf : DataType → DataType → Type 0
ShapeOf value type = (type ≡ value) ⊎ IsDictionaryOf value type

-- What the transformations of an optional or other field (by `metadata`) give.
unfoldable pub Passes : Str → Bool → Metadata → DataType → Result ⊥ (Option Field) → Type 0
unfolding strip
Passes name nullable metadata value (ok none) = has_optional metadata ≡ true
Passes name nullable metadata value (ok (some (field name' type nullable' metadata'))) =
    (name' ≡ name)
    × (nullable' ≡ nullable)
    × (strip metadata' ≡ strip metadata)
    × ShapeOf value type
Passes name nullable metadata value _ = ⊥

value_type-ShapeOf :
    (value type : DataType)
    → value_type value ≡ value
    → ShapeOf value type
    → value_type type ≡ value
value_type-ShapeOf value type h (inl e) = ap value_type e ∙ h
value_type-ShapeOf value type h (inr (index, e)) = ap value_type e

dictionary-Passes :
    (t : DictionaryField) (name : Str) (type : DataType) (nullable : Bool) (m metadata : Metadata)
    (value : DataType)
    → IsValid t
    → value_type value ≡ value
    → strip m ≡ strip metadata
    → ShapeOf value type
    → Passes name nullable metadata value (transform_dictionary t (field name type nullable m))
unfolding Passes transform_dictionary
dictionary-Passes t name type nullable m metadata value v idem same shape = cases t.index_types refl
  where
    opened :
        (first : IndexType) (others : List IndexType) (index : IndexType)
        → t.index_types ≡ first ∷ others
        → index_type t ≡ some index
        → transform_dictionary t (field name type nullable m)
          ≡ ok (
              some (
                field name
                  (dictionary index (value_type type))
                  nullable
                  (m ++ (dict_id_key, t.dict_id) ∷ [])))
    opened first others index e known = ground arith

    cases :
        (types : List IndexType)
        → t.index_types ≡ types
        → Passes name nullable metadata value (transform_dictionary t (field name type nullable m))
    cases [] e = rw e (refl, refl, same, inl (value_type-ShapeOf value type idem shape))
    cases (first ∷ others) e =
        let (index, known) = index_type-some t first others v e in
        rw (opened first others index e known) (
          refl,
          refl,
          strip-dict_id m t.dict_id ∙ same,
          inr (index, ap (dictionary index) (value_type-ShapeOf value type idem shape)),
        )

-- What comes after one transformation, on the field that it gives.
then-Passes :
    (table : Table) (ts : List FieldTransform) (name : Str) (nullable : Bool) (metadata : Metadata)
    (value : DataType) (r : Result ⊥ (Option Field))
    → Passes name nullable metadata value r
    → ((type : DataType) (m : Metadata)
        → strip m ≡ strip metadata
        → ShapeOf value type
        → Passes name nullable metadata value (transform_all table ts (field name type nullable m)))
    → Passes name nullable metadata value
        (r >>= λ o. elim o [ none ↦ ok none | some g ↦ transform_all table ts g ])
unfolding Passes
then-Passes table ts name nullable metadata value (ok none) p next = p
then-Passes table ts name nullable metadata value (ok (some (field n type b m))) (e, f, same, shape)
      next =
    rw (e, f) (next type m same shape)
then-Passes table ts name nullable metadata value (err e) p next = p
then-Passes table ts name nullable metadata value panic p next = p

pub transform_all-Passes :
    (table : Table) (ts : List FieldTransform) (name : Str) (type : DataType) (nullable : Bool)
    (m metadata : Metadata) (value : DataType)
    → AllValid table
    → Allowed (length table) metadata ts
    → value_type value ≡ value
    → strip m ≡ strip metadata
    → ShapeOf value type
    → Passes name nullable metadata value (transform_all table ts (field name type nullable m))
unfolding Passes transform_all transform Allowed
transform_all-Passes table [] name type nullable m metadata value vs al idem same shape =
    (refl, refl, same, shape)
transform_all-Passes table (identity_field ∷ ts) name type nullable m metadata value vs al idem same
      shape =
    transform_all-Passes table ts name type nullable m metadata value vs al idem same shape
transform_all-Passes table (removed_field ∷ ts) name type nullable m metadata value vs al idem same
      shape =
    al.0
transform_all-Passes table (dictionary_field i ∷ ts) name type nullable m metadata value vs al idem
      same shape =
    let (t, known, v) = entry-IsValid table i vs al.0 in
    rw (Passes, transform_all, transform, known)
      (then-Passes table ts name nullable metadata value
        (transform_dictionary t (field name type nullable m))
        (dictionary-Passes t name type nullable m metadata value v idem same shape)
        (λ type' m' same' shape'.
          transform_all-Passes table ts name type' nullable m' metadata value vs al.1 idem same'
            shape'))
