-- ===== src/Routing/Router.antt =====
-- The weighted choice of exporters of collector/processor/experimentprocessor: Validate of
-- config.go, and the router of router.go. An int is its 64-bit word: it is negative from 2 ^ 63 on.
use otel_arrow_adapter.Base.{
  ℕ, ◌+◌, ◌%◌, if◌then◌else◌, leb, ltb, ◌==◌, ◌&&◌, Bool, ◌⊎◌, inl, inr, List, [], ◌∷◌, ◌++◌,
  Option, none, some, Result, ok, err, panic, ◌>>=◌, Str, length,
}

pub record RoutingTableItem : Type 0 where
  pub weight : ℕ
  pub names : List Str

pub data ConfigError : Type 0 where
  no_table_items no_exporters zero_table_weight : ConfigError
  invalid_weight : ℕ → ConfigError

abbrev pub is_negative : ℕ → Bool
is_negative n = leb 9223372036854775808 n

abbrev pub add_int : ℕ → ℕ → ℕ
add_int a b = (a + b) % 18446744073709551616

-- The loop of Validate, with its total.
unfoldable pub validate_items : ℕ → List RoutingTableItem → ConfigError ⊎ ℕ
validate_items total [] = inr total
validate_items total (item ∷ items) =
    let rest = validate_items (add_int total item.weight) items in
    if is_negative item.weight
    then inl (invalid_weight item.weight)
    else if length item.names == 0
    then inl no_exporters
    else rest

unfoldable pub validate : List RoutingTableItem → Option ConfigError
unfolding validate_items
validate [] = some no_table_items
validate (item ∷ items) = elim (validate_items 0 (item ∷ items)) [
  | inl e ↦ some e
  | inr total ↦ if total == 0 then some zero_table_weight else none
]

pub record RoutingItem (E : Type 0) : Type 0 where
  pub exporters : List E
  pub cum_weight : ℕ

pub data ExtractError : Type 0 where
  bad_id exporter_not_found wrong_type : ExtractError

-- The routes that newRouter makes.
unfoldable pub new_routes : (E : Type 0) → List RoutingTableItem → List (RoutingItem E)
new_routes E [] = []
new_routes E (item ∷ items) = record { exporters = []; cum_weight = 0 } ∷ new_routes E items

-- The parameters are the collector's: component.ID.UnmarshalText, the map of the available
-- components, and the type assertion to an exporter of the pipeline's type.
module _ {ComponentId Component E : Type 0} (unmarshal : Str → Option ComponentId)
    (available : ComponentId → Option Component) (as_exporter : Component → Option E) where
  unfoldable pub extract_exporter : Str → Result ExtractError E
  extract_exporter name = elim (unmarshal name) [
    | none ↦ err bad_id
    | some id ↦ elim (available id) [
      | none ↦ err exporter_not_found
      | some v ↦ elim (as_exporter v) [ none ↦ err wrong_type | some e ↦ ok e ]
    ]
  ]

  -- The body of the inner loop of registerExporters, which appends to the route's exporters.
  abbrev pub append_exporter : Result ExtractError E → List E → Result ExtractError (List E)
  append_exporter (ok e) es = ok (es ++ e ∷ [])
  append_exporter (err exporter_not_found) es = ok es
  append_exporter (err bad_id) es = err bad_id
  append_exporter (err wrong_type) es = err wrong_type
  append_exporter panic es = panic

  unfoldable pub append_exporters : List Str → List E → Result ExtractError (List E)
  unfolding extract_exporter
  append_exporters [] es = ok es
  append_exporters (name ∷ names) es =
      append_exporter (extract_exporter name) es >>= λ es'. append_exporters names es'

  -- The processor does not start after an error, so that the routes are not used. The index of a
  -- route is an item's: fewer routes than items are a panic.
  unfoldable pub register_from :
      ℕ → List RoutingTableItem → List (RoutingItem E) → Result ExtractError (List (RoutingItem E))
  unfolding append_exporters
  register_from total [] routes = ok routes
  register_from total (item ∷ items) [] = panic
  register_from total (item ∷ items) (route ∷ routes) =
      append_exporters item.names route.exporters >>= λ es.
      (register_from (add_int total item.weight) items routes >>= λ rest.
      ok (record { exporters = es; cum_weight = add_int total item.weight } ∷ rest))

  unfoldable pub register_exporters :
      List RoutingTableItem → List (RoutingItem E) → Result ExtractError (List (RoutingItem E))
  unfolding register_from
  register_exporters table routes = register_from 0 table routes

module _ {E : Type 0} where
  abbrev pub last_weight : RoutingItem E → List (RoutingItem E) → ℕ
  last_weight route [] = route.cum_weight
  last_weight route (next ∷ rest) = last_weight next rest

  -- The linear search, over all routes but the last. `x` is not negative.
  abbrev pub search_route : ℕ → RoutingItem E → List (RoutingItem E) → List E
  search_route x route [] = route.exporters
  search_route x route (next ∷ rest) =
      let later = search_route x next rest in
      if ltb x route.cum_weight && ltb route.cum_weight 9223372036854775808
      then route.exporters
      else later

  -- The first argument is randIntn, which panics on an int that is not positive. Nothing is the
  -- panic.
  unfoldable pub get_exporters : (ℕ → ℕ) → List (RoutingItem E) → Option (List E)
  get_exporters intn [] = none
  get_exporters intn (route ∷ rest) =
      let n = last_weight route rest in
      if ltb 0 n && ltb n 9223372036854775808 then some (search_route (intn n) route rest) else none

-- ConsumeTraces, with the exporters' ConsumeTraces and multierr.Append. ConsumeMetrics and
-- ConsumeLogs are the same code.
module _ {E Data Err : Type 0} (consume : E → Data → Option Err)
    (append : Option Err → Option Err → Option Err) where
  abbrev pub consume_all : List E → Data → Option Err → Option Err
  consume_all [] t errs = errs
  consume_all (e ∷ es) t errs = consume_all es t (append errs (consume e t))

  unfoldable pub consume_traces : (ℕ → ℕ) → List (RoutingItem E) → Data → Option (Option Err)
  unfolding get_exporters
  consume_traces intn routes t = elim (get_exporters intn routes) [
    | none ↦ none
    | some es ↦ some (consume_all es t none)
  ]
