-- ===== src/Examples/Routing.antt =====
-- Two exporters behind a table with three items.
use otel_arrow_adapter.Base.{
  ℕ, ◌+◌, ◌*◌, ◌==◌, ◌||◌, ltb, if◌then◌else◌, ◌≡◌, refl, List, [], ◌∷◌, Option, none, some, ok,
  err, arith, Str, get_elem?,
}
use otel_arrow_adapter.Routing.Router.{
  RoutingTableItem, RoutingItem, invalid_weight, wrong_type, validate, new_routes,
  register_exporters, get_exporters, consume_all, consume_traces,
}
use otel_arrow_adapter.Routing.Shares.{shares, weights, consume_traces-shares}

-- A name of one byte is an identifier.
abbrev unmarshal : Str → Option ℕ
unmarshal (n ∷ []) = some n
unmarshal _ = none

-- Of 1 to 3, the third is no exporter of the pipeline's type.
abbrev available : ℕ → Option ℕ
available n = if n == 0 || ltb 3 n then none else some (10 * n)

abbrev as_exporter : ℕ → Option ℕ
as_exporter v = if v == 30 then none else some v

abbrev consume : ℕ → ℕ → Option ℕ
consume e t = some (e + t)

abbrev append : Option ℕ → Option ℕ → Option ℕ
append errs none = errs
append errs (some e) = some e

-- The last item names an exporter that is not available.
abbrev table : List RoutingTableItem
table =
    record { weight = 2; names = (1 ∷ []) ∷ [] }
    ∷ record { weight = 0; names = (1 ∷ []) ∷ (2 ∷ []) ∷ [] }
    ∷ record { weight = 3; names = (2 ∷ []) ∷ (9 ∷ []) ∷ [] }
    ∷ []

abbrev routes : List (RoutingItem ℕ)
routes =
    record { exporters = 10 ∷ []; cum_weight = 2 }
    ∷ record { exporters = 10 ∷ 20 ∷ []; cum_weight = 2 }
    ∷ record { exporters = 20 ∷ []; cum_weight = 5 }
    ∷ []

table_valid : validate table ≡ none
unfolding validate
table_valid = refl

table_registered :
    register_exporters unmarshal available as_exporter table (new_routes ℕ table) ≡ ok routes
unfolding register_exporters new_routes
table_registered = refl

wrong_exporter :
    register_exporters unmarshal available as_exporter
      (record { weight = 1; names = (3 ∷ []) ∷ [] } ∷ [])
      (record { exporters = []; cum_weight = 0 } ∷ [])
    ≡ err wrong_type
unfolding register_exporters
wrong_exporter = refl

-- The weight -1.
negative_weight :
    validate (record { weight = 18446744073709551615; names = [] } ∷ [])
    ≡ some (invalid_weight 18446744073709551615)
unfolding validate
negative_weight = refl

-- Two weights of 2 ^ 62 pass Validate, although their sum is negative and randIntn panics on it.
abbrev overflowing : List RoutingTableItem
overflowing =
    record { weight = 4611686018427387904; names = (1 ∷ []) ∷ [] }
    ∷ record { weight = 4611686018427387904; names = (2 ∷ []) ∷ [] }
    ∷ []

overflowing_valid : validate overflowing ≡ none
unfolding validate
overflowing_valid = refl

abbrev overflowing_routes : List (RoutingItem ℕ)
overflowing_routes =
    record { exporters = 10 ∷ []; cum_weight = 4611686018427387904 }
    ∷ record { exporters = 20 ∷ []; cum_weight = 9223372036854775808 }
    ∷ []

overflowing_registered :
    register_exporters unmarshal available as_exporter overflowing (new_routes ℕ overflowing)
    ≡ ok overflowing_routes
unfolding register_exporters new_routes
overflowing_registered = refl

overflowing_panics : get_exporters (λ n. 0) overflowing_routes ≡ none
unfolding get_exporters
overflowing_panics = refl

consume_traces-shares_example :
    (es : List ℕ) × (consume_traces consume append (λ n. 3) routes 7
      ≡ some (consume_all consume append es 7 none))
    × (get_elem? (shares unmarshal available as_exporter table) 3 ≡ some es)
unfolding weights
consume_traces-shares_example =
    consume_traces-shares unmarshal available as_exporter consume append (λ n. 3) table routes 7
      table_valid (omega arith) table_registered (omega arith)
