-- ===== src/Examples/SpanOrders.antt =====
-- Four spans of two resources, sorted by Optimize.
use otel_arrow_adapter.Base.{
  ℕ, ◌≡◌, refl, Bool, List, [], ◌∷◌, if◌then◌else◌, Str, str_eq, str_lt, arith, map,
}
use otel_arrow_adapter.Traces.Optimizer.{
  Span, ResourceSpans, FlatSpan, name_start, less, flatten, optimize, by_name_start,
}
use otel_arrow_adapter.Traces.Orders.{Sorted, sorted_one, sorted_cons}
use otel_arrow_adapter.Traces.SpanOrder.{optimize-consecutive}

abbrev Flat : Type 0
Flat = FlatSpan Str Str ℕ

abbrev insert : (Flat → Flat → Bool) → Flat → List Flat → List Flat
insert lt a [] = a ∷ []
insert lt a (b ∷ bs) = let rest = insert lt a bs in if lt b a then b ∷ rest else a ∷ b ∷ bs

abbrev insertion_sort : (Flat → Flat → Bool) → List Flat → List Flat
insertion_sort lt [] = []
insertion_sort lt (a ∷ rest) = insert lt a (insertion_sort lt rest)

abbrev span_at : ℕ → Span ℕ
span_at t = record { start_timestamp = t; trace_id = 1 ∷ []; span_name = 7 ∷ []; others = t }

abbrev resource_spans : ℕ → List ℕ → ResourceSpans Str Str ℕ
resource_spans r ts = record {
  resource_value = r ∷ [];
  resource_schema_url = [];
  scope_spans = record { scope_value = []; scope_schema_url = []; spans_of = map span_at ts } ∷ [];
}

abbrev traces : List (ResourceSpans Str Str ℕ)
traces = resource_spans 2 (4 ∷ []) ∷ resource_spans 1 (7 ∷ 3 ∷ 5 ∷ []) ∷ []

abbrev id_of : Str → Str → Str
id_of value url = value

abbrev flat : ℕ → ℕ → Flat
flat r t = record {
  resource_id = r ∷ [];
  resource = r ∷ [];
  resource_url = [];
  scope_id = [];
  scope = [];
  scope_url = [];
  span = span_at t;
}

optimized :
    optimize id_of id_of insertion_sort name_start traces
    ≡ flat 1 3 ∷ flat 1 5 ∷ flat 1 7 ∷ flat 2 4 ∷ []
unfolding optimize by_name_start str_eq str_lt
optimized = refl

optimized-Sorted :
    Sorted (less name_start) (insertion_sort (less name_start) (flatten id_of id_of traces))
unfolding flatten by_name_start str_eq str_lt
optimized-Sorted = sorted_cons (flat 1 3) (flat 1 5) _ refl (
    sorted_cons (flat 1 5) (flat 1 7) _ refl
      (sorted_cons (flat 1 7) (flat 2 4) _ refl (sorted_one (flat 2 4))))

optimize-consecutive_example :
    ((flat 1 5).resource_id ≡ (flat 1 3).resource_id) × ((flat 1 5).scope_id ≡ (flat 1 3).scope_id)
unfolding optimize by_name_start str_eq str_lt
optimize-consecutive_example =
    optimize-consecutive id_of id_of insertion_sort name_start traces (λ order. optimized-Sorted) 0
      1 2 (flat 1 3) (flat 1 5) (flat 1 7) (omega arith) (omega arith) refl refl refl refl refl
