-- ===== src/Traces/Optimizer.antt =====
-- pkg/otel/traces/arrow/optimizer.go: the flattening of traces and the sorters of spans. A trace id
-- is its bytes, and the rest of a span, a resource and a scope are of any type.
use otel_arrow_adapter.Base.{
  ℕ, Bool, true, false, List, [], ◌∷◌, ◌++◌, ltb, ◌==◌, if◌then◌else◌, Str, str_eq, str_lt,
}
use otel_arrow_adapter.Attrs.Value.{Cmp, below, same, above, compare_str}

pub record Span (P : Type 0) : Type 0 where
  pub start_timestamp : ℕ
  pub trace_id : Str
  pub span_name : Str
  pub others : P

pub record ScopeSpans (S P : Type 0) : Type 0 where
  pub scope_value : S
  pub scope_schema_url : Str
  pub spans_of : List (Span P)

pub record ResourceSpans (R S P : Type 0) : Type 0 where
  pub resource_value : R
  pub resource_schema_url : Str
  pub scope_spans : List (ScopeSpans S P)

-- FlattenedSpan
pub record FlatSpan (R S P : Type 0) : Type 0 where
  pub resource_id : Str
  pub resource : R
  pub resource_url : Str
  pub scope_id : Str
  pub scope : S
  pub scope_url : Str
  pub span : Span P

abbrev pub is_same : Cmp → Bool
is_same same = true
is_same below = false
is_same above = false

abbrev pub is_below : Cmp → Bool
is_below below = true
is_below same = false
is_below above = false

module _ {R S P : Type 0} where
  abbrev pub compare_trace : FlatSpan R S P → FlatSpan R S P → Cmp
  compare_trace a b = compare_str a.span.trace_id b.span.trace_id

  unfoldable pub by_start_trace_name : FlatSpan R S P → FlatSpan R S P → Bool
  by_start_trace_name a b =
      if str_eq a.resource_id b.resource_id
      then (if str_eq a.scope_id b.scope_id
          then (if a.span.start_timestamp == b.span.start_timestamp
              then (if is_same (compare_trace a b)
                  then str_lt a.span.span_name b.span.span_name
                  else is_below (compare_trace a b))
              else ltb a.span.start_timestamp b.span.start_timestamp)
          else str_lt a.scope_id b.scope_id)
      else str_lt a.resource_id b.resource_id

  unfoldable pub by_start_name_trace : FlatSpan R S P → FlatSpan R S P → Bool
  by_start_name_trace a b =
      if str_eq a.resource_id b.resource_id
      then (if str_eq a.scope_id b.scope_id
          then (if a.span.start_timestamp == b.span.start_timestamp
              then (if str_eq a.span.span_name b.span.span_name
                  then is_below (compare_trace a b)
                  else str_lt a.span.span_name b.span.span_name)
              else ltb a.span.start_timestamp b.span.start_timestamp)
          else str_lt a.scope_id b.scope_id)
      else str_lt a.resource_id b.resource_id

  unfoldable pub by_name_start : FlatSpan R S P → FlatSpan R S P → Bool
  by_name_start a b =
      if str_eq a.resource_id b.resource_id
      then (if str_eq a.scope_id b.scope_id
          then (if str_eq a.span.span_name b.span.span_name
              then ltb a.span.start_timestamp b.span.start_timestamp
              else str_lt a.span.span_name b.span.span_name)
          else str_lt a.scope_id b.scope_id)
      else str_lt a.resource_id b.resource_id

  unfoldable pub by_name_trace : FlatSpan R S P → FlatSpan R S P → Bool
  by_name_trace a b =
      if str_eq a.resource_id b.resource_id
      then (if str_eq a.scope_id b.scope_id
          then (if str_eq a.span.span_name b.span.span_name
              then is_below (compare_trace a b)
              else str_lt a.span.span_name b.span.span_name)
          else str_lt a.scope_id b.scope_id)
      else str_lt a.resource_id b.resource_id

  unfoldable pub by_trace_name : FlatSpan R S P → FlatSpan R S P → Bool
  by_trace_name a b =
      if str_eq a.resource_id b.resource_id
      then (if str_eq a.scope_id b.scope_id
          then (if is_same (compare_trace a b)
              then str_lt a.span.span_name b.span.span_name
              else is_below (compare_trace a b))
          else str_lt a.scope_id b.scope_id)
      else str_lt a.resource_id b.resource_id

  unfoldable pub by_name_trace_start : FlatSpan R S P → FlatSpan R S P → Bool
  by_name_trace_start a b =
      if str_eq a.resource_id b.resource_id
      then (if str_eq a.scope_id b.scope_id
          then (if str_eq a.span.span_name b.span.span_name
              then (if is_same (compare_trace a b)
                  then ltb a.span.start_timestamp b.span.start_timestamp
                  else is_below (compare_trace a b))
              else str_lt a.span.span_name b.span.span_name)
          else str_lt a.scope_id b.scope_id)
      else str_lt a.resource_id b.resource_id

-- The sorters that compare spans.
pub data SpanSorter : Type 0 where
  start_trace_name start_name_trace name_start name_trace trace_name name_trace_start : SpanSorter

abbrev pub less : {R S P : Type 0} → SpanSorter → FlatSpan R S P → FlatSpan R S P → Bool
less start_trace_name = by_start_trace_name
less start_name_trace = by_start_name_trace
less name_start = by_name_start
less name_trace = by_name_trace
less trace_name = by_trace_name
less name_trace_start = by_name_trace_start

-- Optimize, with otlp.ResourceID and otlp.ScopeID, and with sort.Slice.
module _ {R S P : Type 0} (resource_id_of : R → Str → Str) (scope_id_of : S → Str → Str) where
  abbrev pub flatten_spans : R → Str → S → Str → List (Span P) → List (FlatSpan R S P)
  flatten_spans r r_url s s_url [] = []
  flatten_spans r r_url s s_url (x ∷ xs) =
      record {
        resource_id = resource_id_of r r_url;
        resource = r;
        resource_url = r_url;
        scope_id = scope_id_of s s_url;
        scope = s;
        scope_url = s_url;
        span = x;
      }
      ∷ flatten_spans r r_url s s_url xs

  abbrev pub flatten_scopes : R → Str → List (ScopeSpans S P) → List (FlatSpan R S P)
  flatten_scopes r r_url [] = []
  flatten_scopes r r_url (s ∷ ss) =
      flatten_spans r r_url s.scope_value s.scope_schema_url s.spans_of ++ flatten_scopes r r_url ss

  unfoldable pub flatten : List (ResourceSpans R S P) → List (FlatSpan R S P)
  flatten [] = []
  flatten (r ∷ rs) =
      flatten_scopes r.resource_value r.resource_schema_url r.scope_spans ++ flatten rs

  unfoldable pub optimize :
      ((FlatSpan R S P → FlatSpan R S P → Bool) → List (FlatSpan R S P) → List (FlatSpan R S P))
      → SpanSorter
      → List (ResourceSpans R S P)
      → List (FlatSpan R S P)
  unfolding flatten
  optimize sort sorter traces = sort (less sorter) (flatten traces)
