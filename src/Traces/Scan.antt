-- ===== src/Traces/Scan.antt =====
-- The scan of a batch by RelatedDataFrom (pkg/otel/traces/otlp/related_data.go), and TracesFrom of
-- pkg/otel/arrow_record/consumer.go after it.
use otel_arrow_adapter.Base.{
  ℕ, ◌+◌, ◌≤◌, ◌≡◌, refl, ◌≢◌, ◌⊎◌, inl, inr, Option, none, some, List, [], ◌∷◌, arith, Result, ok,
  err, panic, ◌>>=◌, bind-ok,
}
use otel_arrow_adapter.Traces.RelatedData.{
  PayloadType, resource_attrs, scope_attrs, span_attrs, span_events, span_event_attrs, span_links,
  span_link_attrs, spans, other_type, RelatedError, Readers, RelatedData, Scan, new_scan,
  scan_record, scan, read_events, read_links, related_data_from, traces_from,
}

is_spans : PayloadType → ℕ
is_spans resource_attrs = 0
is_spans scope_attrs = 0
is_spans span_attrs = 0
is_spans span_events = 0
is_spans span_event_attrs = 0
is_spans span_links = 0
is_spans span_link_attrs = 0
is_spans spans = 1
is_spans other_type = 0

unfoldable pub count_spans : {R : Type 0} → List (PayloadType × R) → ℕ
unfolding is_spans
count_spans [] = 0
count_spans ((type, r) ∷ records) = is_spans type + count_spans records

held : {R : Type 0} → Option R → ℕ
held none = 0
held (some r) = 1

held_le : {R : Type 0} (o : Option R) → held o ≤ 1
unfolding held
held_le none = omega arith
held_le (some r) = omega arith

module _ (rs : Readers) where
  step-held :
      (s s' : Scan rs) (type : PayloadType) (r : rs.Record)
      → scan_record rs s type r ≡ ok s'
      → held s'.traces_record ≡ held s.traces_record + is_spans type
  unfolding scan_record held is_spans
  step-held s s' resource_attrs r h = ground (arith, h)
  step-held s s' scope_attrs r h = ground (arith, h)
  step-held s s' span_attrs r h = ground (arith, h)
  step-held s s' span_events r h = ground (arith, h)
  step-held s s' span_event_attrs r h = ground (arith, h)
  step-held s s' span_links r h = ground (arith, h)
  step-held s s' span_link_attrs r h = ground (arith, h)
  step-held s s' spans r h = ground (arith, h)
  step-held s s' other_type r h = ground (arith, h)

  -- A scan that succeeds counts the spans records.
  scan-held :
      (s s' : Scan rs) (records : List (PayloadType × rs.Record))
      → scan rs s records ≡ ok s'
      → held s'.traces_record ≡ held s.traces_record + count_spans records
  unfolding scan count_spans
  scan-held s s' [] h = ground (arith, h)
  scan-held s s' ((type, r) ∷ records) h =
      let (next, now, rest) = bind-ok (scan_record rs s type r) (λ s1. scan rs s1 records) s' h in
      ground (arith, step-held s next type r now, scan-held next s' records rest)

  read_events-held :
      (s s' : Scan rs) → read_events rs s ≡ ok s' → s'.traces_record ≡ s.traces_record
  unfolding read_events
  read_events-held s s' h = ground (arith, h)

  -- When the batch has several spans records, RelatedDataFrom does not succeed.
  several_spans-refused :
      (records : List (PayloadType × rs.Record)) (out : RelatedData rs × Option rs.Record)
      → 2 ≤ count_spans records
      → related_data_from rs records ≢ ok out
  unfolding related_data_from held new_scan
  several_spans-refused records out several h =
      let (s, scanned, rest) =
        bind-ok (scan rs (new_scan rs) records)
          (λ s. read_events rs s >>= λ s'.
            read_links rs s' >>= λ s''. ok (s''.related, s''.traces_record))
          out h in
      omega (arith, scan-held (new_scan rs) s records scanned, held_le s.traces_record)

  -- When the batch has several spans records, TracesFrom reports success without any traces, or
  -- panics: the error of RelatedDataFrom is lost.
  pub several_spans-dropped :
      (read : rs.Record → RelatedData rs → Result rs.Error rs.Traces)
      (records : List (PayloadType × rs.Record))
      → 2 ≤ count_spans records
      → (traces_from rs read records ≡ ok []) ⊎ (traces_from rs read records ≡ panic)
  unfolding traces_from
  several_spans-dropped read records several = go (related_data_from rs records) refl
    where
      go :
          (r : Result (RelatedError rs.Error) (RelatedData rs × Option rs.Record))
          → related_data_from rs records ≡ r
          → (traces_from rs read records ≡ ok []) ⊎ (traces_from rs read records ≡ panic)
      go (ok out) h = elim (several_spans-refused records out several h) [ ]
      go (err e) h = inl (rw (h, traces_from) refl)
      go panic h = inr (rw (h, traces_from) refl)
