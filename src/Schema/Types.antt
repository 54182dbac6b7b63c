-- ===== src/Schema/Types.antt =====
-- The part of Arrow's schemas that pkg/otel/common/schema reads (the types of
-- github.com/apache/arrow/go): fields with their metadata, and the data types that have fields.
-- Types without fields are told apart by a number, and a dictionary is never ordered.
use otel_arrow_adapter.Base.{
  ℕ, Bool, true, false, if◌then◌else◌, List, [], ◌∷◌, Option, none, some, Str,
}
use otel_arrow_adapter.Schema.Dictionary.{IndexType}

-- A key of a field's metadata: OptionalKey, DictionaryKey, DictIdKey, or another one.
pub data Key : Type 0 where
  optional dictionary_key dict_id_key : Key
  other_key : Str → Key

abbrev pub Metadata : Type 0
Metadata = List (Key × Str)

pub data Mode : Type 0 where
  sparse dense : Mode

mutual
  pub data DataType : Type 0 where
    plain : ℕ → DataType
    dictionary : IndexType → DataType → DataType
    struct_of : Fields → DataType
    list_of : Field → DataType
    union_of : Mode → Fields → List ℕ → DataType
    map_of : Field → Field → DataType

  pub data Field : Type 0 where
    field : Str → DataType → Bool → Metadata → Field

  pub data Fields : Type 0 where
    no_fields : Fields
    add_field : Field → Fields → Fields

abbrev pub is_key : Key → Key → Bool
is_key optional optional = true
is_key dictionary_key dictionary_key = true
is_key dict_id_key dict_id_key = true
is_key _ _ = false

-- Metadata.FindKey, with the value at the index it gives. `key` is not an `other_key`.
unfoldable pub find_key : Key → Metadata → Option Str
find_key key [] = none
find_key key ((k, v) ∷ rest) =
    let later = find_key key rest in if is_key key k then some v else later

abbrev pub type_of : Field → DataType
type_of (field name type nullable metadata) = type

abbrev pub metadata_of : Field → Metadata
metadata_of (field name type nullable metadata) = metadata
