-- ===== src/Attrs/Columns.antt =====
-- Attribute records: what TryBuild (attributes_16.go, attributes_32.go) appends to the builder's
-- columns, row after row. A null cell is `none`. An optional column that holds only nulls is left
-- out of the Arrow schema; it is read like a column of nulls (pkg/arrow/from_record.go), so it
-- stays a column here. common.Serialize (CBOR, a third-party encoder) is a parameter.
use otel_arrow_adapter.Base.{
  ℕ, Bool, ◌&&◌, ◌==◌, Str, ℤ, List, [], ◌∷◌, Option, none, some, length, Result, ok, panic,
  if◌then◌else◌,
}
use otel_arrow_adapter.Attrs.Value.{
  Value, empty, str, int, double, bool, kvlist, slice, bytes, type_of,
}
use otel_arrow_adapter.Attrs.Sorter.{Attr, Sorter, SorterState, reset}

-- The columns parent_id, key, type, str, int, double, bool, bytes and ser.
pub record Columns : Type 0 where
  pub parent_ids : List ℕ
  pub keys : List (Option Str)
  pub types : List ℕ
  pub strs : List (Option Str)
  pub ints : List (Option ℤ)
  pub doubles : List (Option ℕ)
  pub bools : List (Option Bool)
  pub binaries : List (Option (List ℕ))
  pub sers : List (Option (List ℕ))

unfoldable pub no_rows : Columns
no_rows = record {
  parent_ids = [];
  keys = [];
  types = [];
  strs = [];
  ints = [];
  doubles = [];
  bools = [];
  binaries = [];
  sers = [];
}

-- StringBuilder.Append writes the empty string as a null.
unfoldable pub string_cell : Str → Option Str
string_cell [] = none
string_cell (c ∷ s) = some (c ∷ s)

-- The six value columns of one row: the cells in front of the rows below.
cells :
    ℕ
    → Option Str
    → Option ℤ
    → Option ℕ
    → Option Bool
    → Option (List ℕ)
    → Option (List ℕ)
    → Columns
    → Columns
cells ty s i d b bin ser rest = record rest {
  types = ty ∷ rest.types;
  strs = s ∷ rest.strs;
  ints = i ∷ rest.ints;
  doubles = d ∷ rest.doubles;
  bools = b ∷ rest.bools;
  binaries = bin ∷ rest.binaries;
  sers = ser ∷ rest.sers;
}

-- A value that is not serialized leaves by `break`, and appends nothing.
append_ser : ℕ → Option (List ℕ) → Columns → Columns
unfolding cells
append_ser ty none rest = rest
append_ser ty (some data_) rest = cells ty none none none none none (some data_) rest

-- The `switch` on the value's type. The empty value has no case.
unfoldable pub append_value : (Value → Option (List ℕ)) → Value → Columns → Columns
unfolding cells append_ser string_cell
append_value serialize empty rest = rest
append_value serialize (str s) rest =
    cells (type_of (str s)) (string_cell s) none none none none none rest
append_value serialize (int i) rest = cells (type_of (int i)) none (some i) none none none none rest
append_value serialize (double d) rest =
    cells (type_of (double d)) none none (some d) none none none rest
append_value serialize (bool b) rest =
    cells (type_of (bool b)) none none none (some b) none none rest
append_value serialize (bytes b) rest =
    cells (type_of (bytes b)) none none none none (some b) none rest
append_value serialize (slice s) rest = append_ser (type_of (slice s)) (serialize (slice s)) rest
append_value serialize (kvlist m) rest = append_ser (type_of (kvlist m)) (serialize (kvlist m)) rest

-- The loop of TryBuild over the sorted attributes. The rows below the current one come from the
-- rest of the loop, which starts in the sorter's next state.
unfoldable pub append_attrs : (Value → Option (List ℕ)) → Sorter → SorterState → List Attr → Columns
unfolding no_rows append_value string_cell
append_attrs serialize sorter s [] = no_rows
append_attrs serialize sorter s (a ∷ attrs) =
    let (n, s') = sorter.encode s a.parent_id a.key a.value in
    let rest = append_value serialize a.value (append_attrs serialize sorter s' attrs) in
    record rest { parent_ids = n ∷ rest.parent_ids; keys = string_cell a.key ∷ rest.keys }

-- Arrow's NewRecord panics unless all columns have one length.
unfoldable pub is_rectangular : Columns → Bool
is_rectangular c =
    let n = length c.parent_ids in
    length c.keys == n
    && length c.types == n
    && length c.strs == n
    && length c.ints == n
    && length c.doubles == n
    && length c.bools == n
    && length c.binaries == n
    && length c.sers == n

-- TryBuild of a builder that is not released, in the round where the schema is up to date.
-- `attrs` are the accumulator's attributes after `Sort`, which resets the sorter.
unfoldable pub try_build {ℓ} :
    {E : Type ℓ} → (Value → Option (List ℕ)) → Sorter → List Attr → Result E Columns
unfolding append_attrs is_rectangular reset
try_build serialize sorter attrs =
    let c = append_attrs serialize sorter reset attrs in if is_rectangular c then ok c else panic
