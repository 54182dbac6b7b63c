-- ===== src/Attrs/Value.antt =====
-- pcommon.Value as far as the adapter reads it, and Equal, IsLess and Compare of
-- pkg/otel/common/arrow/attributes.go. A string or byte slice is its list of bytes.
pub mod Order
use otel_arrow_adapter.Base.{
  ℕ, Bool, true, false, not, ◌&&◌, if◌then◌else◌, Str, str_eq, str_lt, ℤ, int_eq, int_lt, double_eq,
  double_lt, List,
}

-- The order of two values or strings as a Go `int`: below, at or above 0.
pub data Cmp : Type 0 where
  below same above : Cmp

mutual
  -- `kvlist` is the constructor for ValueTypeMap, whose entries stand in the order of Range.
  pub data Value : Type 0 where
    empty : Value
    str : Str → Value
    int : ℤ → Value
    double : ℕ → Value
    bool : Bool → Value
    kvlist : Entries → Value
    slice : Items → Value
    bytes : List ℕ → Value

  pub data Items : Type 0 where
    no_items : Items
    item : Value → Items → Items

  pub data Entries : Type 0 where
    no_entries : Entries
    entry : Str → Value → Entries → Entries

-- The constants of pcommon.ValueType.
unfoldable pub type_of : Value → ℕ
type_of empty = 0
type_of (str s) = 1
type_of (int i) = 2
type_of (double d) = 3
type_of (bool b) = 4
type_of (kvlist m) = 5
type_of (slice s) = 6
type_of (bytes b) = 7

unfoldable pub equal : Value → Value → Bool
equal (int a) (int b) = int_eq a b
equal (double a) (double b) = double_eq a b
equal (bool true) (bool true) = true
equal (bool false) (bool false) = true
equal (str a) (str b) = str_eq a b
equal (bytes a) (bytes b) = str_eq a b
equal _ _ = false

-- Bool() of a value that is no boolean is false.
abbrev get_bool : Value → Bool
get_bool (bool b) = b
get_bool _ = false

unfoldable pub is_less : Value → Value → Bool
is_less (int a) (int b) = int_lt a b
is_less (double a) (double b) = double_lt a b
is_less (bool a) b = a && not (get_bool b)
is_less (str a) (str b) = str_lt a b
is_less (bytes a) (bytes b) = str_lt a b
is_less _ _ = false

-- strings.Compare and bytes.Compare
unfoldable pub compare_str : Str → Str → Cmp
compare_str a b = if str_eq a b then same else if str_lt a b then below else above

compare_bool : Bool → Bool → Cmp
compare_bool true true = same
compare_bool false false = same
compare_bool true false = above
compare_bool false true = below

unfoldable pub compare_value : Value → Value → Cmp
unfolding compare_str compare_bool
compare_value (int a) (int b) = if int_eq a b then same else if int_lt a b then below else above
compare_value (double a) (double b) =
    if double_eq a b then same else if double_lt a b then below else above
compare_value (bool a) b = compare_bool a (get_bool b)
compare_value (str a) (str b) = compare_str a b
compare_value (bytes a) (bytes b) = compare_str a b
compare_value _ _ = above
