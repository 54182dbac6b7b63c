-- ===== src/Examples/Traces.antt =====
-- Links, events and related data of traces at concrete values.
use otel_arrow_adapter.Base.{
  ℕ, ◌≡◌, refl, ◌≢◌, ◌⊎◌, Bool, Option, none, some, List, [], ◌∷◌, ◌++◌, arith, ◌==◌, if◌then◌else◌,
  length, str_eq, str_lt, Result, ok, panic,
}
use otel_arrow_adapter.Attrs.Value.{str}
use otel_arrow_adapter.Attrs.Accumulator.{Accumulator, new_accumulator}
use otel_arrow_adapter.Traces.Groups.{reset, encode, decode, follow, reset-IsValid, decode-encode}
use otel_arrow_adapter.Traces.Related.{Row, try_build, store_from, accumulate, collect}
use otel_arrow_adapter.Traces.RoundTrip.{items_read, own_attrs}
use otel_arrow_adapter.Traces.Links.{
  Link, LinkCells, links, bare_link, less_trace_id_parent_id, links_written_and_read,
}
use otel_arrow_adapter.Traces.Events.{
  Event, EventCells, events, bare_event, less_name_parent_id, events_written_and_read,
}
use otel_arrow_adapter.Traces.Mismatch.{second_read, encode_delta-misplaced}
use otel_arrow_adapter.Traces.RelatedData.{
  PayloadType, span_events, span_event_attrs, spans, Readers, RelatedData, new_related_data,
  new_scan, scan, scan_record, read_events, read_links, related_data_from, traces_from,
}
use otel_arrow_adapter.Traces.Scan.{count_spans, several_spans-dropped}
use otel_arrow_adapter.Traces.EventScan.{events_record, all_event_attrs, events-all_attributes}

-- Two items stand for sort.Slice's input.
in_order : {A : Type 0} → (A → A → Bool) → List A → List A
in_order less [] = []
in_order less (a ∷ []) = a ∷ []
in_order less (a ∷ b ∷ rest) = if less b a then b ∷ a ∷ rest else a ∷ b ∷ rest

-- Two links to one trace: the one of the later span comes first, and only it has an attribute.
abbrev two_links : List Link
two_links =
    record {
      parent_id = 7;
      trace_id = 1 ∷ [];
      span_id = 2 ∷ [];
      trace_state = [];
      attributes = (107 ∷ [], str (120 ∷ [])) ∷ [];
      dropped_attributes_count = 0;
    }
    ∷ record {
      parent_id = 3;
      trace_id = 1 ∷ [];
      span_id = 4 ∷ [];
      trace_state = 97 ∷ [];
      attributes = [];
      dropped_attributes_count = 5;
    }
    ∷ []

abbrev two_events : List Event
two_events =
    record {
      parent_id = 7;
      time_unix_nano = 1;
      name = 98 ∷ [];
      attributes = (107 ∷ [], str (120 ∷ [])) ∷ [];
      dropped_attributes_count = 0;
    }
    ∷ record {
      parent_id = 3;
      time_unix_nano = 2;
      name = 97 ∷ [];
      attributes = [];
      dropped_attributes_count = 5;
    }
    ∷ []

-- The attributes that a store holds for the id 0.
abbrev store : ℕ → Option ℕ
store id = if id == 0 then some 42 else none

abbrev sorted_links : List Link → List Link
sorted_links = in_order less_trace_id_parent_id

abbrev sorted_events : List Event → List Event
sorted_events = in_order less_name_parent_id

links_written_and_read_example :
    (out : List (Row LinkCells) × Accumulator) × (try_build links encode sorted_links
        new_accumulator two_links
      ≡ ok out)
    × (store_from links store out.0 ≡ items_read links bare_link store 0 (sorted_links two_links))
    × (out.1.attrs ≡ new_accumulator.attrs ++ own_attrs links bare_link 0 (sorted_links two_links))
unfolding in_order less_trace_id_parent_id new_accumulator links str_eq str_lt
links_written_and_read_example =
    links_written_and_read store sorted_links new_accumulator two_links
      (omega arith, (omega arith, tt)) (omega arith) (omega arith)

events_written_and_read_example :
    (out : List (Row EventCells) × Accumulator) × (try_build events encode sorted_events
        new_accumulator two_events
      ≡ ok out)
    × (store_from events store out.0
        ≡ items_read events bare_event store 0 (sorted_events two_events))
    × (out.1.attrs
        ≡ new_accumulator.attrs ++ own_attrs events bare_event 0 (sorted_events two_events))
unfolding in_order less_name_parent_id new_accumulator events str_eq str_lt
events_written_and_read_example =
    events_written_and_read store sorted_events new_accumulator two_events
      (omega arith, (omega arith, tt)) (omega arith) (omega arith)

-- The links of the spans 7 and 3 are accumulated, and what is read is found under each of them.
links_accumulated :
    accumulate (record { group_count = 0; items = [] }) two_links
    ≡ ok (record { group_count = 1; items = two_links })
unfolding accumulate
links_accumulated = refl

links_collected : collect {A = ℕ} 7 ((3, 1) ∷ (7, 2) ∷ (7, 3) ∷ []) ≡ 2 ∷ 3 ∷ []
unfolding collect
links_collected = refl

decode-encode_example :
    decode (follow reset) (encode reset 9 (97 ∷ [])).0 (97 ∷ [])
    ≡ (9, follow (encode reset 9 (97 ∷ [])).1)
decode-encode_example = decode-encode reset 9 (97 ∷ []) (omega arith) reset-IsValid

encode_delta-misplaced_example : second_read 1 (97 ∷ []) 2 (98 ∷ []) ≢ 2
encode_delta-misplaced_example =
    encode_delta-misplaced 1 2 (97 ∷ []) (98 ∷ []) (omega arith) (omega arith) (omega arith)
      (ground arith)

-- Records are numbers, stores are lists of them, and a traces value is its number of events.
abbrev readers : Readers
readers = record {
  Record = ℕ;
  Error = ℕ;
  Store16 = List ℕ;
  Store32 = List ℕ;
  Events = List ℕ;
  Links = List ℕ;
  Traces = ℕ;
  new_store16 = [];
  new_store32 = [];
  new_events = [];
  new_links = [];
  attributes16_store_from = λ r s. ok (r ∷ s);
  attributes32_store_from = λ r s. ok (r ∷ s);
  span_events_store_from = λ r s. ok (r ∷ s);
  span_links_store_from = λ r s. ok (r ∷ s);
}

abbrev read : ℕ → RelatedData readers → Result ℕ ℕ
read r related = ok (length related.span_events_store)

-- The event attributes come after the events.
abbrev batch : List (PayloadType × ℕ)
batch = (spans, 1) ∷ (span_events, 2) ∷ (span_event_attrs, 3) ∷ []

abbrev batch_data : RelatedData readers
batch_data = record {
  res_attr_map_store = [];
  scope_attr_map_store = [];
  span_attr_map_store = [];
  span_event_attr_map_store = 3 ∷ [];
  span_link_attr_map_store = [];
  span_events_store = 2 ∷ 3 ∷ [];
  span_links_store = [];
}

batch_read : related_data_from readers batch ≡ ok (batch_data, some 1)
unfolding related_data_from scan scan_record new_scan read_events read_links new_related_data
batch_read = refl

traces_read : traces_from readers read batch ≡ ok (2 ∷ [])
unfolding traces_from related_data_from scan scan_record new_scan read_events read_links
    new_related_data
traces_read = refl

events-all_attributes_example :
    (all_event_attrs readers batch [] ≡ ok (3 ∷ []))
    × (readers.span_events_store_from 2 (3 ∷ []) ≡ ok (2 ∷ 3 ∷ []))
unfolding events_record
events-all_attributes_example =
    events-all_attributes readers batch (batch_data, some 1) 2 batch_read refl

several_spans-dropped_example :
    (traces_from readers read ((spans, 1) ∷ (spans, 2) ∷ []) ≡ ok [])
    ⊎ (traces_from readers read ((spans, 1) ∷ (spans, 2) ∷ []) ≡ panic)
unfolding count_spans
several_spans-dropped_example =
    several_spans-dropped readers read ((spans, 1) ∷ (spans, 2) ∷ []) (omega arith)
