-- ===== src/Traces/EventScan.antt =====
-- The events of a batch and their attributes, which RelatedDataFrom
-- (pkg/otel/traces/otlp/related_data.go) reads in two passes.
use otel_arrow_adapter.Base.{
  ◌≡◌, ◌∙◌, Option, none, some, List, [], ◌∷◌, arith, Result, ok, err, panic, ◌>>=◌, bind-ok,
  ok_injective, ap, sym,
}
use otel_arrow_adapter.Traces.RelatedData.{
  PayloadType, resource_attrs, scope_attrs, span_attrs, span_events, span_event_attrs, span_links,
  span_link_attrs, spans, other_type, RelatedError, from_reader, Readers, RelatedData,
  new_related_data, Scan, new_scan, scan_record, scan, read_events, read_links, related_data_from,
}

-- The first event record.
unfoldable pub events_record : {R : Type 0} → List (PayloadType × R) → Option R
events_record [] = none
events_record ((resource_attrs, r) ∷ records) = events_record records
events_record ((scope_attrs, r) ∷ records) = events_record records
events_record ((span_attrs, r) ∷ records) = events_record records
events_record ((span_events, r) ∷ records) = some r
events_record ((span_event_attrs, r) ∷ records) = events_record records
events_record ((span_links, r) ∷ records) = events_record records
events_record ((span_link_attrs, r) ∷ records) = events_record records
events_record ((spans, r) ∷ records) = events_record records
events_record ((other_type, r) ∷ records) = events_record records

module _ (rs : Readers) where
  step-events :
      (s s' : Scan rs) (type : PayloadType) (r : rs.Record) (e : rs.Record)
      → scan_record rs s type r ≡ ok s'
      → s.span_event_record ≡ some e
      → s'.span_event_record ≡ some e
  unfolding scan_record
  step-events s s' resource_attrs r e h kept = ground (arith, h, kept)
  step-events s s' scope_attrs r e h kept = ground (arith, h, kept)
  step-events s s' span_attrs r e h kept = ground (arith, h, kept)
  step-events s s' span_events r e h kept = ground (arith, h, kept)
  step-events s s' span_event_attrs r e h kept = ground (arith, h, kept)
  step-events s s' span_links r e h kept = ground (arith, h, kept)
  step-events s s' span_link_attrs r e h kept = ground (arith, h, kept)
  step-events s s' spans r e h kept = ground (arith, h, kept)
  step-events s s' other_type r e h kept = ground (arith, h, kept)

  scan-kept :
      (s s' : Scan rs) (records : List (PayloadType × rs.Record)) (e : rs.Record)
      → scan rs s records ≡ ok s'
      → s.span_event_record ≡ some e
      → s'.span_event_record ≡ some e
  unfolding scan
  scan-kept s s' [] e h kept = ground (arith, h, kept)
  scan-kept s s' ((type, r) ∷ records) e h kept =
      let (next, now, rest) = bind-ok (scan_record rs s type r) (λ s1. scan rs s1 records) s' h in
      scan-kept next s' records e rest (step-events s next type r e now kept)

  step-found :
      (s s' : Scan rs) (r : rs.Record)
      → scan_record rs s span_events r ≡ ok s'
      → s'.span_event_record ≡ some r
  unfolding scan_record
  step-found s s' r h = ground (arith, h)

  scan-found :
      (s s' : Scan rs) (records : List (PayloadType × rs.Record)) (e : rs.Record)
      → scan rs s records ≡ ok s'
      → events_record records ≡ some e
      → s'.span_event_record ≡ some e
  unfolding scan events_record
  scan-found s s' [] e h found = ground arith
  scan-found s s' ((resource_attrs, r) ∷ records) e h found =
      let (next, now, rest) =
        bind-ok (scan_record rs s resource_attrs r) (λ s1. scan rs s1 records) s' h in
      scan-found next s' records e rest found
  scan-found s s' ((scope_attrs, r) ∷ records) e h found =
      let (next, now, rest) =
        bind-ok (scan_record rs s scope_attrs r) (λ s1. scan rs s1 records) s' h in
      scan-found next s' records e rest found
  scan-found s s' ((span_attrs, r) ∷ records) e h found =
      let (next, now, rest) =
        bind-ok (scan_record rs s span_attrs r) (λ s1. scan rs s1 records) s' h in
      scan-found next s' records e rest found
  scan-found s s' ((span_events, r) ∷ records) e h found =
      let (next, now, rest) =
        bind-ok (scan_record rs s span_events r) (λ s1. scan rs s1 records) s' h in
      scan-kept next s' records e rest (step-found s next r now ∙ found)
  scan-found s s' ((span_event_attrs, r) ∷ records) e h found =
      let (next, now, rest) =
        bind-ok (scan_record rs s span_event_attrs r) (λ s1. scan rs s1 records) s' h in
      scan-found next s' records e rest found
  scan-found s s' ((span_links, r) ∷ records) e h found =
      let (next, now, rest) =
        bind-ok (scan_record rs s span_links r) (λ s1. scan rs s1 records) s' h in
      scan-found next s' records e rest found
  scan-found s s' ((span_link_attrs, r) ∷ records) e h found =
      let (next, now, rest) =
        bind-ok (scan_record rs s span_link_attrs r) (λ s1. scan rs s1 records) s' h in
      scan-found next s' records e rest found
  scan-found s s' ((spans, r) ∷ records) e h found =
      let (next, now, rest) = bind-ok (scan_record rs s spans r) (λ s1. scan rs s1 records) s' h in
      scan-found next s' records e rest found
  scan-found s s' ((other_type, r) ∷ records) e h found =
      let (next, now, rest) =
        bind-ok (scan_record rs s other_type r) (λ s1. scan rs s1 records) s' h in
      scan-found next s' records e rest found

  read_events-found :
      (s s' : Scan rs) (e : rs.Record)
      → read_events rs s ≡ ok s'
      → s.span_event_record ≡ some e
      → rs.span_events_store_from e s'.related.span_event_attr_map_store
        ≡ ok s'.related.span_events_store
  unfolding read_events
  read_events-found s s' e h found = ground (arith, h, found)

  read_links-events :
      (s s' : Scan rs)
      → read_links rs s ≡ ok s'
      → (s'.related.span_event_attr_map_store ≡ s.related.span_event_attr_map_store)
        × (s'.related.span_events_store ≡ s.related.span_events_store)
  unfolding read_links
  read_links-events s s' h = (ground (arith, h), ground (arith, h))

  -- What one record adds to the attributes of the events, and what the records of a batch do: the
  -- event attribute records are read one after the other, and the other records add nothing.
  unfoldable pub add_event_attrs :
      PayloadType → rs.Record → rs.Store32 → Result (RelatedError rs.Error) rs.Store32
  add_event_attrs resource_attrs r store = ok store
  add_event_attrs scope_attrs r store = ok store
  add_event_attrs span_attrs r store = ok store
  add_event_attrs span_events r store = ok store
  add_event_attrs span_event_attrs r store = elim (rs.attributes32_store_from r store) [
    | ok store' ↦ ok store'
    | err e ↦ err (from_reader e)
    | panic ↦ panic
  ]
  add_event_attrs span_links r store = ok store
  add_event_attrs span_link_attrs r store = ok store
  add_event_attrs spans r store = ok store
  add_event_attrs other_type r store = ok store

  unfoldable pub all_event_attrs :
      List (PayloadType × rs.Record) → rs.Store32 → Result (RelatedError rs.Error) rs.Store32
  unfolding add_event_attrs
  all_event_attrs [] store = ok store
  all_event_attrs ((type, r) ∷ records) store =
      add_event_attrs type r store >>= λ store'. all_event_attrs records store'

  step-event_attrs :
      (s s' : Scan rs) (type : PayloadType) (r : rs.Record)
      → scan_record rs s type r ≡ ok s'
      → add_event_attrs type r s.related.span_event_attr_map_store
        ≡ ok s'.related.span_event_attr_map_store
  unfolding scan_record add_event_attrs
  step-event_attrs s s' resource_attrs r h = ground (arith, h)
  step-event_attrs s s' scope_attrs r h = ground (arith, h)
  step-event_attrs s s' span_attrs r h = ground (arith, h)
  step-event_attrs s s' span_events r h = ground (arith, h)
  step-event_attrs s s' span_event_attrs r h = ground (arith, h)
  step-event_attrs s s' span_links r h = ground (arith, h)
  step-event_attrs s s' span_link_attrs r h = ground (arith, h)
  step-event_attrs s s' spans r h = ground (arith, h)
  step-event_attrs s s' other_type r h = ground (arith, h)

  scan-event_attrs :
      (s s' : Scan rs) (records : List (PayloadType × rs.Record))
      → scan rs s records ≡ ok s'
      → all_event_attrs records s.related.span_event_attr_map_store
        ≡ ok s'.related.span_event_attr_map_store
  unfolding scan all_event_attrs
  scan-event_attrs s s' [] h = ground (arith, h)
  scan-event_attrs s s' ((type, r) ∷ records) h =
      let (next, now, rest) = bind-ok (scan_record rs s type r) (λ s1. scan rs s1 records) s' h in
      rw (step-event_attrs s next type r now) (scan-event_attrs next s' records rest)

  read_events-event_attrs :
      (s s' : Scan rs)
      → read_events rs s ≡ ok s'
      → s'.related.span_event_attr_map_store ≡ s.related.span_event_attr_map_store
  unfolding read_events
  read_events-event_attrs s s' h = ground (arith, h)

  -- When RelatedDataFrom succeeds and the batch has an event record, reading all event attribute
  -- records of the batch one after the other, wherever they stand, succeeds, and the store that this
  -- gives is the one with which the events were read.
  pub events-all_attributes :
      (records : List (PayloadType × rs.Record)) (out : RelatedData rs × Option rs.Record)
      (e : rs.Record)
      → related_data_from rs records ≡ ok out
      → events_record records ≡ some e
      → (all_event_attrs records rs.new_store32 ≡ ok out.0.span_event_attr_map_store)
        × (rs.span_events_store_from e out.0.span_event_attr_map_store ≡ ok out.0.span_events_store)
  unfolding related_data_from new_scan new_related_data
  events-all_attributes records out e h found =
      let (s, scanned, rest) =
        bind-ok (scan rs (new_scan rs) records)
          (λ s. read_events rs s >>= λ s'.
            read_links rs s' >>= λ s''. ok (s''.related, s''.traces_record))
          out h in
      let (s', events, rest') =
        bind-ok (read_events rs s)
          (λ s'. read_links rs s' >>= λ s''. ok (s''.related, s''.traces_record)) out rest in
      let (s'', links, same) =
        bind-ok (read_links rs s') (λ s''. ok (s''.related, s''.traces_record)) out rest' in
      let kept = read_links-events s' s'' links in
      let all = scan-event_attrs (new_scan rs) s records scanned in
      let same_store = read_events-event_attrs s s' events in
      let store =
        read_events-found s s' e events (scan-found (new_scan rs) s records e scanned found) in
      let is_out = ap (λ d. d.0.span_event_attr_map_store) (ok_injective same) in
      (
        all ∙ ap (λ t. ok t) (sym same_store ∙ sym kept.0 ∙ is_out),
        ground (arith, same, kept, store),
      )
