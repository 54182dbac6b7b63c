-- ===== src/Traces/Spans.antt =====
-- The main record of traces: Append of pkg/otel/traces/arrow/traces.go and TracesFrom of
-- pkg/otel/traces/otlp/traces.go, with the columns that carry ids. The other columns of a resource,
-- a scope and a span are of any type. LogsFrom and MetricsFrom group their rows in the same way.
pub mod Kept
pub mod Misplaced
pub mod OneScope
use otel_arrow_adapter.Base.{
  ℕ, suc, ◌-◌, Bool, true, false, ◌||◌, Option, none, some, List, [], ◌∷◌, ◌++◌, length, ◌==◌,
  if◌then◌else◌, u16_mod, add_word, Str, str_eq, Result, ok, panic, ◌>>=◌,
}
use otel_arrow_adapter.Attrs.Value.{Value}
use otel_arrow_adapter.Attrs.Accumulator.{Accumulator, new_accumulator, append_with_id}
use otel_arrow_adapter.Attrs.Accumulator
use otel_arrow_adapter.Traces.DeltaIds.{
  Cell, nothing, null, word, Column, plain, DeltaBuilder, new_delta_builder, set_max_delta,
  append_null, attributes_by_delta_id,
}
use otel_arrow_adapter.Traces.DeltaIds

abbrev pub Attributes : Type 0
Attributes = List (Str × Value)

module _ (R S P : Type 0) where
  -- FlattenedSpan: the ids of the resource and of the scope are what ResourceID and ScopeID give.
  pub record FlattenedSpan : Type 0 where
    pub resource_span_id : Str
    pub resource_attrs : Attributes
    pub resource : R
    pub scope_span_id : Str
    pub scope_attrs : Attributes
    pub scope : S
    pub span_attrs : Attributes
    pub has_events_or_links : Bool
    pub span : P

  pub record Row : Type 0 where
    pub id : Cell
    pub resource_id : Cell
    pub scope_id : Cell
    pub row_resource : R
    pub row_scope : S
    pub row_span : P

  -- What the reader has built: each scope with the position of its resource, each span with that of
  -- its scope.
  pub record Read (M : Type 0) : Type 0 where
    pub resources : List (Option M × R)
    pub scopes : List (ℕ × (Option M × S))
    pub spans : List (ℕ × (Option M × P))

-- The state of Append. `none` as an id is -1.
pub record TracesBuilder : Type 0 where
  pub span_id : ℕ
  pub res_span_id : Str
  pub scope_span_id : Str
  pub res_id : Option ℕ
  pub scope_id : Option ℕ
  pub resource_accumulator : Accumulator
  pub scope_accumulator : Accumulator
  pub span_accumulator : Accumulator
  pub ib : DeltaBuilder
  pub rb : DeltaBuilder
  pub scb : DeltaBuilder

-- A builder of an id column: the deltas are at most 1.
unfoldable pub new_id_builder : Column → DeltaBuilder
unfolding new_delta_builder set_max_delta
new_id_builder column = set_max_delta (new_delta_builder 65535 column) 1

unfoldable pub new_traces_builder : Column → Column → Column → TracesBuilder
unfolding new_id_builder new_accumulator
new_traces_builder ids resource_ids scope_ids = record {
  span_id = 0;
  res_span_id = [];
  scope_span_id = [];
  res_id = some 0;
  scope_id = some 0;
  resource_accumulator = new_accumulator;
  scope_accumulator = new_accumulator;
  span_accumulator = new_accumulator;
  ib = new_id_builder ids;
  rb = new_id_builder resource_ids;
  scb = new_id_builder scope_ids;
}

-- The id column of AppendWithID and AppendWithAttrsID.
unfoldable pub append_id : DeltaBuilder → Option ℕ → Result ⊥ (Cell × DeltaBuilder)
unfolding append_null DeltaIds.append
append_id b none = ok (append_null b)
append_id b (some id) = DeltaIds.append b id

-- The id of an entity: the accumulator is asked when the key differs from the one before.
unfoldable pub id_of :
    Str → Option ℕ → Accumulator → Str → Attributes → Result ⊥ (Accumulator × Option ℕ)
unfolding Accumulator.append
id_of prev_key prev_id accumulator key attrs =
    if str_eq prev_key key
    then ok (accumulator, prev_id)
    else Accumulator.append 65535 accumulator attrs

module _ {R S P : Type 0} where
  unfoldable pub has_related_data : FlattenedSpan R S P → Bool
  has_related_data f = elim f.span_attrs [ [] ↦ f.has_events_or_links | e ∷ es ↦ true ]

  unfoldable pub append_span :
      TracesBuilder → FlattenedSpan R S P → Result ⊥ (Row R S P × TracesBuilder)
  unfolding has_related_data append_id id_of append_with_id
  append_span b f = append_id b.ib (if has_related_data f then some b.span_id else none) >>= λ i.
      (id_of b.res_span_id b.res_id b.resource_accumulator f.resource_span_id f.resource_attrs
        >>= λ r.
            (append_id b.rb r.1 >>= λ rc.
            (id_of b.scope_span_id b.scope_id b.scope_accumulator f.scope_span_id f.scope_attrs
              >>= λ s.
                  (append_id b.scb s.1 >>= λ sc.
                  (append_with_id 65535 b.span_accumulator b.span_id f.span_attrs >>= λ a. ok (
                    record {
                      id = i.0;
                      resource_id = rc.0;
                      scope_id = sc.0;
                      row_resource = f.resource;
                      row_scope = f.scope;
                      row_span = f.span;
                    },
                    record {
                      span_id =
                          if has_related_data f then add_word u16_mod b.span_id 1 else b.span_id;
                      res_span_id = f.resource_span_id;
                      scope_span_id = f.scope_span_id;
                      res_id = r.1;
                      scope_id = s.1;
                      resource_accumulator = r.0;
                      scope_accumulator = s.0;
                      span_accumulator = a;
                      ib = i.1;
                      rb = rc.1;
                      scb = sc.1;
                    },
                  ))))))

  -- The loop of Append over the optimized spans.
  unfoldable pub append_spans :
      TracesBuilder → List (FlattenedSpan R S P) → Result ⊥ (List (Row R S P) × TracesBuilder)
  unfolding append_span
  append_spans b [] = ok ([], b)
  append_spans b (f ∷ fs) =
      append_span b f >>= λ r. (append_spans r.1 fs >>= λ rest. ok (r.0 ∷ rest.0, rest.1))

  -- The rows of a new record, whose schema has the three columns of ids.
  unfoldable pub rows_of : List (FlattenedSpan R S P) → Result ⊥ (List (Row R S P))
  unfolding append_spans new_traces_builder
  rows_of fs = append_spans (new_traces_builder plain plain plain) fs >>= λ r. ok r.0

-- U16FromStruct and U16FromRecord: a null and a missing column are 0.
abbrev pub u16_from : Cell → ℕ
u16_from nothing = 0
u16_from null = 0
u16_from (word n) = n

-- NullableU16FromStruct: nil is for a missing column alone.
abbrev pub nullable_u16_from : Cell → Option ℕ
nullable_u16_from nothing = none
nullable_u16_from null = some 0
nullable_u16_from (word n) = some n

-- The stores of the related data; `prev` ids are None (-1) at first.
pub record Stores (M : Type 0) : Type 0 where
  pub resource_attrs_by_id : ℕ → Option M
  pub scope_attrs_by_id : ℕ → Option M
  pub span_attrs_by_id : ℕ → Option M

pub record ReaderState (R S P M : Type 0) : Type 0 where
  pub prev_res_id : Option ℕ
  pub prev_scope_id : Option ℕ
  pub last_resource : ℕ
  pub last_scope : ℕ
  pub last_span : ℕ
  pub built : Read R S P M

abbrev is_id : Option ℕ → ℕ → Bool
is_id none id = false
is_id (some prev) id = prev == id

-- The attributes of UpdateResourceFromRecord and UpdateScopeFromRecord, with the store's last id.
unfoldable pub attrs_of : {M : Type 0} → (ℕ → Option M) → ℕ → Cell → Option M × ℕ
unfolding attributes_by_delta_id
attrs_of by_id last cell = elim (nullable_u16_from cell) [
  | none ↦ (none, last)
  | some delta ↦ attributes_by_delta_id u16_mod by_id last delta
]

module _ {R S P M : Type 0} (stores : Stores M) where
  unfoldable pub new_reader : ReaderState R S P M
  new_reader = record {
    prev_res_id = none;
    prev_scope_id = none;
    last_resource = 0;
    last_scope = 0;
    last_span = 0;
    built = record { resources = []; scopes = []; spans = [] };
  }

  -- A new group of the resource, where the id differs from the row before.
  unfoldable pub read_resource : ReaderState R S P M → Row R S P → ReaderState R S P M
  unfolding attrs_of
  read_resource st row =
      if is_id st.prev_res_id (u16_from row.resource_id)
      then st
      else (let (attrs, last) =
            attrs_of stores.resource_attrs_by_id st.last_resource row.resource_id in
          record st {
            prev_res_id = some (u16_from row.resource_id);
            last_resource = last;
            built = record st.built {
              resources = st.built.resources ++ (attrs, row.row_resource) ∷ [];
            };
          })

  unfoldable pub read_scope : ReaderState R S P M → Row R S P → ReaderState R S P M
  unfolding attrs_of
  read_scope st row =
      if is_id st.prev_scope_id (u16_from row.scope_id)
      then st
      else (let (attrs, last) = attrs_of stores.scope_attrs_by_id st.last_scope row.scope_id in
          record st {
            prev_scope_id = some (u16_from row.scope_id);
            last_scope = last;
            built = record st.built {
              scopes =
                  st.built.scopes ++ (length st.built.resources - 1, (attrs, row.row_scope)) ∷ [];
            };
          })

  -- SpanIDFromDelta, and the span with the attributes of its id.
  unfoldable pub read_span : ReaderState R S P M → Row R S P → ReaderState R S P M
  read_span st row =
      let id = add_word u16_mod st.last_span (u16_from row.id) in
      record st {
        last_span = id;
        built = record st.built {
          spans =
              st.built.spans
              ++ (length st.built.scopes - 1, (stores.span_attrs_by_id id, row.row_span)) ∷ [];
        };
      }

  unfoldable pub read_rows : ReaderState R S P M → List (Row R S P) → ReaderState R S P M
  unfolding read_resource read_scope read_span
  read_rows st [] = st
  read_rows st (row ∷ rows) = read_rows (read_span (read_scope (read_resource st row) row) row) rows

  -- TracesFrom
  unfoldable pub traces_from_rows : List (Row R S P) → Read R S P M
  unfolding read_rows new_reader
  traces_from_rows rows = (read_rows new_reader rows).built
