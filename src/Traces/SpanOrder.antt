-- ===== src/Traces/SpanOrder.antt =====
-- The orders of the span sorters of pkg/otel/traces/arrow/optimizer.go.
use otel_arrow_adapter.Base.{
  ℕ, ◌<◌, some, get_elem?, ◌≡◌, sym, ◌∙◌, subst, Bool, true, false, List, ltb, ◌==◌, if◌then◌else◌,
  Str, str_eq, str_lt, str_eq→eq, str_eq_refl, arith,
}
use otel_arrow_adapter.Traces.Orders.{
  IsLinear, ltb-IsLinear, str_lt-total, str_lt-IsLinear, on-IsLinear, then-IsLinear, trace-IsLinear,
  IsStrictWeakOrder, IsLinear-IsStrictWeakOrder, Sorted, Sorted-get_elem?,
}
use otel_arrow_adapter.Traces.Optimizer.{
  FlatSpan, ResourceSpans, flatten, optimize, is_same, is_below, compare_trace, SpanSorter, less,
  by_start_trace_name, by_start_name_trace, by_name_start, by_name_trace, by_trace_name,
  by_name_trace_start, start_trace_name, start_name_trace, name_start, name_trace, trace_name,
  name_trace_start,
}

-- The resource and the scope are compared first, and the spans of one scope by any order.
ids_first :
    {R S P : Type 0}
    → (FlatSpan R S P → FlatSpan R S P → Bool)
    → FlatSpan R S P
    → FlatSpan R S P
    → Bool
ids_first lt a b =
    if str_eq a.resource_id b.resource_id
    then (if str_eq a.scope_id b.scope_id then lt a b else str_lt a.scope_id b.scope_id)
    else str_lt a.resource_id b.resource_id

-- Of three values in order, the second equals the first where the third does.
between :
    (a b c : Str)
    → (str_eq b a ≡ false → str_lt b a ≡ false)
    → (str_eq c b ≡ false → str_lt c b ≡ false)
    → a ≡ c
    → b ≡ a
between a b c low high e = str_eq→eq b a (
    ground (
      arith,
      low,
      subst (λ d. str_eq d b ≡ false → str_lt d b ≡ false) (sym e) high,
      str_lt-total b a,
      str_lt-total a b,
      str_lt-IsLinear.symmetric a b,
      str_lt-IsLinear.symmetric b a,
    ))

module _ {R S P : Type 0} where
  by_ids :
      {eq lt : FlatSpan R S P → FlatSpan R S P → Bool}
      → IsLinear eq lt
      → IsStrictWeakOrder (ids_first lt)
  unfolding ids_first
  by_ids l = IsLinear-IsStrictWeakOrder (
      then-IsLinear (on-IsLinear (λ a. a.resource_id) str_lt-IsLinear)
        (then-IsLinear (on-IsLinear (λ a. a.scope_id) str_lt-IsLinear) l))

  by_start :
      IsLinear
        (λ (a b : FlatSpan R S P). a.span.start_timestamp == b.span.start_timestamp)
        (λ a b. ltb a.span.start_timestamp b.span.start_timestamp)
  by_start = on-IsLinear (λ a. a.span.start_timestamp) ltb-IsLinear

  by_name :
      IsLinear
        (λ (a b : FlatSpan R S P). str_eq a.span.span_name b.span.span_name)
        (λ a b. str_lt a.span.span_name b.span.span_name)
  by_name = on-IsLinear (λ a. a.span.span_name) str_lt-IsLinear

  by_trace :
      IsLinear
        (λ (a b : FlatSpan R S P). is_same (compare_trace a b))
        (λ a b. is_below (compare_trace a b))
  by_trace = on-IsLinear (λ a. a.span.trace_id) trace-IsLinear

  less-IsStrictWeakOrder : (s : SpanSorter) → IsStrictWeakOrder (less {R = R} {S = S} {P = P} s)
  unfolding by_start_trace_name by_start_name_trace by_name_start by_name_trace by_trace_name
      by_name_trace_start ids_first
  less-IsStrictWeakOrder start_trace_name =
      by_ids (then-IsLinear by_start (then-IsLinear by_trace by_name))
  less-IsStrictWeakOrder start_name_trace =
      by_ids (then-IsLinear by_start (then-IsLinear by_name by_trace))
  less-IsStrictWeakOrder name_start = by_ids (then-IsLinear by_name by_start)
  less-IsStrictWeakOrder name_trace = by_ids (then-IsLinear by_name by_trace)
  less-IsStrictWeakOrder trace_name = by_ids (then-IsLinear by_trace by_name)
  less-IsStrictWeakOrder name_trace_start =
      by_ids (then-IsLinear by_name (then-IsLinear by_trace by_start))

  ids_first-between :
      (lt : FlatSpan R S P → FlatSpan R S P → Bool) (a b c : FlatSpan R S P)
      → ids_first lt b a ≡ false
      → ids_first lt c b ≡ false
      → a.resource_id ≡ c.resource_id
      → a.scope_id ≡ c.scope_id
      → (b.resource_id ≡ a.resource_id) × (b.scope_id ≡ a.scope_id)
  unfolding ids_first
  ids_first-between lt a b c low high e f =
      let same =
        between a.resource_id b.resource_id c.resource_id (λ h. ground arith) (λ h. ground arith)
          e in
      let same' : str_eq b.resource_id a.resource_id ≡ true =
        subst (λ d. str_eq b.resource_id d ≡ true) same (str_eq_refl b.resource_id) in
      let same'' : str_eq c.resource_id b.resource_id ≡ true =
        subst (λ d. str_eq c.resource_id d ≡ true) (sym e ∙ sym same) (str_eq_refl c.resource_id) in
      (same, between a.scope_id b.scope_id c.scope_id (λ h. ground arith) (λ h. ground arith) f)

module _ {R S P : Type 0} where
  less-between :
      (s : SpanSorter) (a b c : FlatSpan R S P)
      → less s b a ≡ false
      → less s c b ≡ false
      → a.resource_id ≡ c.resource_id
      → a.scope_id ≡ c.scope_id
      → (b.resource_id ≡ a.resource_id) × (b.scope_id ≡ a.scope_id)
  unfolding by_start_trace_name by_start_name_trace by_name_start by_name_trace by_trace_name
      by_name_trace_start ids_first
  less-between start_trace_name = ids_first-between _
  less-between start_name_trace = ids_first-between _
  less-between name_start = ids_first-between _
  less-between name_trace = ids_first-between _
  less-between trace_name = ids_first-between _
  less-between name_trace_start = ids_first-between _

  -- sort.Slice leaves the flattened spans in order by the comparison of the sorter, provided that
  -- this is a strict weak order. Then, in what Optimize gives, all spans that stand between two
  -- spans with one resource id and one scope id have these ids too.
  pub optimize-consecutive :
      (resource_id_of : R → Str → Str) (scope_id_of : S → Str → Str)
      (sort : (FlatSpan R S P → FlatSpan R S P → Bool)
        → List (FlatSpan R S P)
        → List (FlatSpan R S P))
      (sorter : SpanSorter) (traces : List (ResourceSpans R S P))
      → (IsStrictWeakOrder (less {R = R} {S = S} {P = P} sorter)
          → Sorted (less sorter) (sort (less sorter) (flatten resource_id_of scope_id_of traces)))
      → (i j k : ℕ) (a b c : FlatSpan R S P) → i < j
      → j < k
      → get_elem? (optimize resource_id_of scope_id_of sort sorter traces) i ≡ some a
      → get_elem? (optimize resource_id_of scope_id_of sort sorter traces) j ≡ some b
      → get_elem? (optimize resource_id_of scope_id_of sort sorter traces) k ≡ some c
      → a.resource_id ≡ c.resource_id
      → a.scope_id ≡ c.scope_id
      → (b.resource_id ≡ a.resource_id) × (b.scope_id ≡ a.scope_id)
  unfolding optimize
  optimize-consecutive rid sid sort sorter traces sorts i j k a b c ij jk ea eb ec =
      let order = less-IsStrictWeakOrder sorter in
      let xs = sort (less sorter) (flatten rid sid traces) in
      less-between sorter a b c (Sorted-get_elem? order xs (sorts order) i j a b ij ea eb)
        (Sorted-get_elem? order xs (sorts order) j k b c jk eb ec)
