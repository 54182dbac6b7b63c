-- ===== src/Traces/RelatedData.antt =====
-- RelatedDataFrom of pkg/otel/traces/otlp/related_data.go, and TracesFrom of
-- pkg/otel/arrow_record/consumer.go.
use otel_arrow_adapter.Base.{Option, none, some, List, [], ◌∷◌, Result, ok, err, panic, ◌>>=◌}

-- The payload types that the traces use, and all others.
pub data PayloadType : Type 0 where
  resource_attrs scope_attrs span_attrs span_events span_event_attrs span_links span_link_attrs
        spans :
      PayloadType
  other_type : PayloadType

-- The errors of RelatedDataFrom, and those of the readers that it calls.
pub data RelatedError (E : Type 0) : Type 0 where
  multiple_span_events multiple_traces unknown_payload_type : RelatedError E
  from_reader : E → RelatedError E

-- The readers of the single records: Attributes16StoreFrom and Attributes32StoreFrom add to a
-- store, SpanEventsStoreFrom and SpanLinksStoreFrom make one, and TracesFrom of
-- pkg/otel/traces/otlp reads the main record.
pub record Readers : Type 1 where
  pub Record : Type 0
  pub Error : Type 0
  pub Store16 : Type 0
  pub Store32 : Type 0
  pub Events : Type 0
  pub Links : Type 0
  pub Traces : Type 0
  pub new_store16 : Store16
  pub new_store32 : Store32
  pub new_events : Events
  pub new_links : Links
  pub attributes16_store_from : Record → Store16 → Result Error Store16
  pub attributes32_store_from : Record → Store32 → Result Error Store32
  pub span_events_store_from : Record → Store32 → Result Error Events
  pub span_links_store_from : Record → Store32 → Result Error Links

module _ (rs : Readers) where
  -- RelatedData, without the running span id.
  pub record RelatedData : Type 0 where
    pub res_attr_map_store : rs.Store16
    pub scope_attr_map_store : rs.Store16
    pub span_attr_map_store : rs.Store16
    pub span_event_attr_map_store : rs.Store32
    pub span_link_attr_map_store : rs.Store32
    pub span_events_store : rs.Events
    pub span_links_store : rs.Links

  unfoldable pub new_related_data : RelatedData
  new_related_data = record {
    res_attr_map_store = rs.new_store16;
    scope_attr_map_store = rs.new_store16;
    span_attr_map_store = rs.new_store16;
    span_event_attr_map_store = rs.new_store32;
    span_link_attr_map_store = rs.new_store32;
    span_events_store = rs.new_events;
    span_links_store = rs.new_links;
  }

  -- The variables of the scan: the records that are read after it.
  pub record Scan : Type 0 where
    pub related : RelatedData
    pub span_event_record : Option rs.Record
    pub span_link_record : Option rs.Record
    pub traces_record : Option rs.Record

  wrapped : {A B : Type 0} → Result rs.Error A → (A → B) → Result (RelatedError rs.Error) B
  wrapped (ok a) f = ok (f a)
  wrapped (err e) f = err (from_reader e)
  wrapped panic f = panic

  only :
      {A : Type 0} → Option A → RelatedError rs.Error → Scan → Result (RelatedError rs.Error) Scan
  only none e s = ok s
  only (some a) e s = err e

  -- The switch on the payload type.
  unfoldable pub scan_record : Scan → PayloadType → rs.Record → Result (RelatedError rs.Error) Scan
  unfolding wrapped only
  scan_record s resource_attrs r =
      wrapped (rs.attributes16_store_from r s.related.res_attr_map_store)
        (λ store. record s { related = record (s.related) { res_attr_map_store = store } })
  scan_record s scope_attrs r =
      wrapped (rs.attributes16_store_from r s.related.scope_attr_map_store)
        (λ store. record s { related = record (s.related) { scope_attr_map_store = store } })
  scan_record s span_attrs r =
      wrapped (rs.attributes16_store_from r s.related.span_attr_map_store)
        (λ store. record s { related = record (s.related) { span_attr_map_store = store } })
  scan_record s span_events r =
      only s.span_event_record multiple_span_events (record s { span_event_record = some r })
  scan_record s span_event_attrs r =
      wrapped (rs.attributes32_store_from r s.related.span_event_attr_map_store)
        (λ store. record s { related = record (s.related) { span_event_attr_map_store = store } })
  scan_record s span_links r =
      only s.span_link_record multiple_span_events (record s { span_link_record = some r })
  scan_record s span_link_attrs r =
      wrapped (rs.attributes32_store_from r s.related.span_link_attr_map_store)
        (λ store. record s { related = record (s.related) { span_link_attr_map_store = store } })
  scan_record s spans r = only s.traces_record multiple_traces (record s { traces_record = some r })
  scan_record s other_type r = err unknown_payload_type

  unfoldable pub scan : Scan → List (PayloadType × rs.Record) → Result (RelatedError rs.Error) Scan
  scan s [] = ok s
  scan s ((type, r) ∷ records) = scan_record s type r >>= λ s'. scan s' records

  -- The events and the links are read when all attributes are.
  unfoldable pub read_events : Scan → Result (RelatedError rs.Error) Scan
  unfolding wrapped
  read_events s = elim s.span_event_record [
    | none ↦ ok s
    | some r ↦
        wrapped (rs.span_events_store_from r s.related.span_event_attr_map_store)
          (λ store. record s { related = record (s.related) { span_events_store = store } })
  ]

  unfoldable pub read_links : Scan → Result (RelatedError rs.Error) Scan
  unfolding wrapped
  read_links s = elim s.span_link_record [
    | none ↦ ok s
    | some r ↦
        wrapped (rs.span_links_store_from r s.related.span_link_attr_map_store)
          (λ store. record s { related = record (s.related) { span_links_store = store } })
  ]

  unfoldable pub new_scan : Scan
  new_scan = record {
    related = new_related_data;
    span_event_record = none;
    span_link_record = none;
    traces_record = none;
  }

  -- RelatedDataFrom.
  unfoldable pub related_data_from :
      List (PayloadType × rs.Record)
      → Result (RelatedError rs.Error) (RelatedData × Option rs.Record)
  related_data_from records = scan new_scan records >>= λ s.
      read_events s >>= λ s'. read_links s' >>= λ s''. ok (s''.related, s''.traces_record)

  -- TracesFrom after Consume: the error of RelatedDataFrom is not looked at, and with it there is
  -- no traces record.
  unfoldable pub traces_from :
      (rs.Record → RelatedData → Result rs.Error rs.Traces)
      → List (PayloadType × rs.Record)
      → Result rs.Error (List rs.Traces)
  traces_from read records = elim (related_data_from records) [
    | panic ↦ panic
    | err e ↦ ok []
    | ok out ↦ elim out.1 [ none ↦ ok [] | some r ↦ read r out.0 >>= λ traces. ok (traces ∷ []) ]
  ]
