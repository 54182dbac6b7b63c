-- ===== src/Attrs/Value/Order.antt =====
-- The two orders on values, IsLess and Compare, and Equal (pkg/otel/common/arrow/attributes.go).
use otel_arrow_adapter.Base.{
  ◌≡◌, ◌≢◌, ◌↔◌, Bool, true, false, arith, str_lt_irrefl, int_lt_irrefl, double_lt_irrefl,
}
use otel_arrow_adapter.Attrs.Value.{
  Value, str, int, double, bool, bytes, below, same, above, type_of, equal, is_less, compare_value,
}

-- On values of one type, Compare returns 0 exactly where Equal holds.
pub compare_value-equal :
    (a b : Value) → type_of a ≡ type_of b → (compare_value a b ≡ same) ↔ (equal a b ≡ true)
unfolding compare_value equal type_of
compare_value-equal (int a) (int b) h = ground arith
compare_value-equal (double a) (double b) h = ground arith
compare_value-equal (bool true) (bool true) h = ground arith
compare_value-equal (bool true) (bool false) h = ground arith
compare_value-equal (bool false) (bool true) h = ground arith
compare_value-equal (bool false) (bool false) h = ground arith
compare_value-equal (str a) (str b) h = ground arith
compare_value-equal (bytes a) (bytes b) h = ground arith
compare_value-equal _ _ h = ground arith

-- On values of one type that are no booleans, IsLess holds exactly where Compare is negative.
pub is_less-compare_value :
    (a b : Value)
    → type_of a ≡ type_of b
    → type_of a ≢ 4
    → (is_less a b ≡ true) ↔ (compare_value a b ≡ below)
unfolding compare_value is_less type_of
is_less-compare_value (int a) (int b) h k = ground (arith, int_lt_irrefl a b)
is_less-compare_value (double a) (double b) h k = ground (arith, double_lt_irrefl a b)
is_less-compare_value (str a) (str b) h k = ground (arith, str_lt_irrefl a b)
is_less-compare_value (bytes a) (bytes b) h k = ground (arith, str_lt_irrefl a b)
is_less-compare_value _ _ h k = ground arith

-- On booleans, IsLess holds exactly where Compare is positive: the two orders are opposite.
pub is_less-compare_bool :
    (a b : Bool) → (is_less (bool a) (bool b) ≡ true) ↔ (compare_value (bool a) (bool b) ≡ above)
unfolding compare_value is_less
is_less-compare_bool true true = ground arith
is_less-compare_bool true false = ground arith
is_less-compare_bool false true = ground arith
is_less-compare_bool false false = ground arith
