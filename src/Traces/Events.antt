-- ===== src/Traces/Events.antt =====
-- Events of spans: pkg/otel/traces/arrow/event.go and pkg/otel/traces/otlp/event.go.
use mathlib.Core.Option
use otel_arrow_adapter.Base.{
  ℕ, ◌+◌, ◌≤◌, ◌<◌, ◌≡◌, Bool, Option, List, [], ◌++◌, ltb, if◌then◌else◌, length, u16_mod, u32_mod,
  sub_word, Str, str_eq, str_lt, ok,
}
use otel_arrow_adapter.Attrs.Value.{Value}
use otel_arrow_adapter.Attrs.Columns.{string_cell}
use otel_arrow_adapter.Traces.Links.{nonzero_cell, string_cell-get_or, nonzero_cell-get_or}
use otel_arrow_adapter.Attrs.Accumulator.{Accumulator}
use otel_arrow_adapter.Traces.Groups.{GroupEncoder, encode}
use otel_arrow_adapter.Traces.Related.{Kind, Row, try_build, store_from}
use otel_arrow_adapter.Traces.RoundTrip.{
  IsFaithful, AreItems, items_read, own_attrs, try_build-reads,
}

-- An event that was accumulated.
pub record Event : Type 0 where
  pub parent_id : ℕ
  pub time_unix_nano : ℕ
  pub name : Str
  pub attributes : List (Str × Value)
  pub dropped_attributes_count : ℕ

pub record EventCells : Type 0 where
  pub time_unix_nano : ℕ
  pub name : Option Str
  pub dropped_attributes_count : Option ℕ

-- What the reader sets in a ptrace.SpanEvent, but for the attributes.
pub record SpanEvent : Type 0 where
  pub time_unix_nano : ℕ
  pub name : Str
  pub dropped_attributes_count : ℕ

-- EventsByNameParentId.Sort and EventsByNameTimeUnixNano.Sort: the orders they sort by.
unfoldable pub less_name_parent_id : Event → Event → Bool
less_name_parent_id a b =
    if str_eq a.name b.name then ltb a.parent_id b.parent_id else str_lt a.name b.name

unfoldable pub less_name_time_unix_nano : Event → Event → Bool
less_name_time_unix_nano a b =
    if str_eq a.name b.name then ltb a.time_unix_nano b.time_unix_nano else str_lt a.name b.name

-- EventsByNameTimeUnixNano.Encode, in the state of the other sorter: the difference to the last
-- parent id, whatever the names are.
unfoldable pub encode_delta : GroupEncoder → ℕ → Str → ℕ × GroupEncoder
encode_delta s parent_id name =
    (sub_word u16_mod parent_id s.prev_parent_id, record s { prev_parent_id = parent_id })

-- The cells of TryBuild's row.
unfoldable pub event_cells : Event → EventCells
event_cells l = record {
  time_unix_nano = l.time_unix_nano;
  name = string_cell l.name;
  dropped_attributes_count = nonzero_cell l.dropped_attributes_count;
}

-- The reader's event: a null string is "", and a null number is 0.
unfoldable pub read_event : EventCells → SpanEvent
read_event c = record {
  time_unix_nano = c.time_unix_nano;
  name = Option.get_or c.name [];
  dropped_attributes_count = Option.get_or c.dropped_attributes_count 0;
}

unfoldable pub events : Kind Event EventCells SpanEvent
events = record {
  parent_id = λ l. l.parent_id;
  group = λ l. l.name;
  attributes = λ l. l.attributes;
  write = event_cells;
  cells_group = λ c. Option.get_or c.name [];
  read = read_event;
}

-- The event that was accumulated, without its attributes.
abbrev pub bare_event : Event → SpanEvent
bare_event l = record {
  time_unix_nano = l.time_unix_nano;
  name = l.name;
  dropped_attributes_count = l.dropped_attributes_count;
}

read_event-event_cells : (l : Event) → read_event (event_cells l) ≡ bare_event l
unfolding read_event event_cells
read_event-event_cells l =
    rw (string_cell-get_or l.name, nonzero_cell-get_or l.dropped_attributes_count)

events-IsFaithful : IsFaithful events bare_event
unfolding events event_cells
events-IsFaithful = record {
  group = λ i. string_cell-get_or i.name;
  fields = read_event-event_cells;
}

-- For any order that the events are sorted into: TryBuild succeeds, the reader finds every event
-- under its own parent id with its own fields, and looks its attributes up under the id they were
-- accumulated for; a event without attributes gets none. The events' parent ids are uint16, they are
-- fewer than 2^32, the accumulator of attributes has room for them, and the id column exists.
pub events_written_and_read :
    {M : Type 0} (by_id : ℕ → Option M) (sort : List Event → List Event) (acc : Accumulator)
    (items : List Event)
    → AreItems events bare_event (sort items)
    → length (sort items) < u32_mod
    → acc.attrs_map_count + length (sort items) ≤ 4294967295
    → (out : List (Row EventCells) × Accumulator) × (try_build events encode sort acc items
        ≡ ok out)
      × (store_from events by_id out.0 ≡ items_read events bare_event by_id 0 (sort items))
      × (out.1.attrs ≡ acc.attrs ++ own_attrs events bare_event 0 (sort items))
events_written_and_read by_id sort acc items =
    try_build-reads events bare_event by_id events-IsFaithful sort acc items
