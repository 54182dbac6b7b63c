-- ===== src/Traces/Links.antt =====
-- Links of spans: pkg/otel/traces/arrow/link.go and pkg/otel/traces/otlp/link.go.
use mathlib.Core.Option
use otel_arrow_adapter.Base.{
  ℕ, zero, suc, ◌+◌, ◌≤◌, ◌<◌, ◌≡◌, refl, Bool, Option, none, some, List, [], ◌∷◌, ◌++◌, ltb,
  if◌then◌else◌, length, u32_mod, Str, str_eq, str_lt, ok,
}
use otel_arrow_adapter.Attrs.Value.{Value}
use otel_arrow_adapter.Attrs.Columns.{string_cell}
use otel_arrow_adapter.Attrs.Accumulator.{Accumulator}
use otel_arrow_adapter.Traces.Groups.{encode}
use otel_arrow_adapter.Traces.Related.{Kind, Row, try_build, store_from}
use otel_arrow_adapter.Traces.RoundTrip.{
  IsFaithful, AreItems, items_read, own_attrs, try_build-reads,
}

-- A link that was accumulated: the ids are byte arrays of 16 and 8 bytes.
pub record Link : Type 0 where
  pub parent_id : ℕ
  pub trace_id : List ℕ
  pub span_id : List ℕ
  pub trace_state : Str
  pub attributes : List (Str × Value)
  pub dropped_attributes_count : ℕ

pub record LinkCells : Type 0 where
  pub trace_id : List ℕ
  pub span_id : List ℕ
  pub trace_state : Option Str
  pub dropped_attributes_count : Option ℕ

-- What the reader sets in a ptrace.SpanLink, but for the attributes.
pub record SpanLink : Type 0 where
  pub trace_id : List ℕ
  pub span_id : List ℕ
  pub trace_state : Str
  pub dropped_attributes_count : ℕ

-- AppendNonZero.
unfoldable pub nonzero_cell : ℕ → Option ℕ
nonzero_cell zero = none
nonzero_cell (suc n) = some (suc n)

-- LinksByTraceIdParentId.Sort: the order it sorts by.
unfoldable pub less_trace_id_parent_id : Link → Link → Bool
less_trace_id_parent_id a b =
    if str_eq a.trace_id b.trace_id
    then ltb a.parent_id b.parent_id
    else str_lt a.trace_id b.trace_id

-- The cells of TryBuild's row.
unfoldable pub link_cells : Link → LinkCells
link_cells l = record {
  trace_id = l.trace_id;
  span_id = l.span_id;
  trace_state = string_cell l.trace_state;
  dropped_attributes_count = nonzero_cell l.dropped_attributes_count;
}

-- The reader's link: a null string is "", and a null number is 0.
unfoldable pub read_link : LinkCells → SpanLink
read_link c = record {
  trace_id = c.trace_id;
  span_id = c.span_id;
  trace_state = Option.get_or c.trace_state [];
  dropped_attributes_count = Option.get_or c.dropped_attributes_count 0;
}

unfoldable pub links : Kind Link LinkCells SpanLink
links = record {
  parent_id = λ l. l.parent_id;
  group = λ l. l.trace_id;
  attributes = λ l. l.attributes;
  write = link_cells;
  cells_group = λ c. c.trace_id;
  read = read_link;
}

-- The link that was accumulated, without its attributes.
abbrev pub bare_link : Link → SpanLink
bare_link l = record {
  trace_id = l.trace_id;
  span_id = l.span_id;
  trace_state = l.trace_state;
  dropped_attributes_count = l.dropped_attributes_count;
}

pub string_cell-get_or : (s : Str) → Option.get_or (string_cell s) [] ≡ s
unfolding string_cell
string_cell-get_or [] = refl
string_cell-get_or (c ∷ s) = refl

pub nonzero_cell-get_or : (n : ℕ) → Option.get_or (nonzero_cell n) 0 ≡ n
unfolding nonzero_cell
nonzero_cell-get_or zero = refl
nonzero_cell-get_or (suc n) = refl

read_link-link_cells : (l : Link) → read_link (link_cells l) ≡ bare_link l
unfolding read_link link_cells
read_link-link_cells l =
    rw (string_cell-get_or l.trace_state, nonzero_cell-get_or l.dropped_attributes_count)

links-IsFaithful : IsFaithful links bare_link
unfolding links link_cells
links-IsFaithful = record { group = λ i. refl; fields = read_link-link_cells }

-- For any order that the links are sorted into: TryBuild succeeds, the reader finds every link
-- under its own parent id with its own fields, and looks its attributes up under the id they were
-- accumulated for; a link without attributes gets none. The links' parent ids are uint16, they are
-- fewer than 2^32, the accumulator of attributes has room for them, and the id column exists.
pub links_written_and_read :
    {M : Type 0} (by_id : ℕ → Option M) (sort : List Link → List Link) (acc : Accumulator)
    (items : List Link)
    → AreItems links bare_link (sort items)
    → length (sort items) < u32_mod
    → acc.attrs_map_count + length (sort items) ≤ 4294967295
    → (out : List (Row LinkCells) × Accumulator) × (try_build links encode sort acc items ≡ ok out)
      × (store_from links by_id out.0 ≡ items_read links bare_link by_id 0 (sort items))
      × (out.1.attrs ≡ acc.attrs ++ own_attrs links bare_link 0 (sort items))
links_written_and_read by_id sort acc items =
    try_build-reads links bare_link by_id links-IsFaithful sort acc items
