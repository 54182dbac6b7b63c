-- ===== src/Traces/Spans/Misplaced.antt =====
-- Batches that TracesFrom (pkg/otel/traces/otlp/traces.go) does not read as they were written: it
-- compares the ids of rows without adding their deltas up, and takes a null id for a delta of 0.
use otel_arrow_adapter.Base.{
  ℕ, ◌≡◌, false, inl, inr, [], ◌∷◌, arith, Bool-cases, Str, str_eq, ok, ◌>>=◌, u16_mod, add_word,
  add_word-zero, str_eq_refl, ◌<◌,
}
use otel_arrow_adapter.Attrs.Value.{Value}
use otel_arrow_adapter.Traces.DeltaIds.{Cell, null, word}
use otel_arrow_adapter.Traces.Spans.{
  Attributes, FlattenedSpan, Row, Stores, new_traces_builder, traces_from_rows, rows_of,
}

zero_sum : (n : ℕ) → n < u16_mod → add_word u16_mod 0 n ≡ n
zero_sum n h = add_word-zero u16_mod n h

module _ {R S P : Type 0} where
  -- A span without events and links of a resource with attributes.
  abbrev pub span_in :
      Str
      → Str × Value
      → Attributes
      → R
      → Str
      → Attributes
      → S
      → Attributes
      → P
      → FlattenedSpan R S P
  span_in key e es r scope_key scope_attrs s attrs p = record {
    resource_span_id = key;
    resource_attrs = e ∷ es;
    resource = r;
    scope_span_id = scope_key;
    scope_attrs = scope_attrs;
    scope = s;
    span_attrs = attrs;
    has_events_or_links = false;
    span = p;
  }

  abbrev row : Cell → Cell → Cell → R → S → P → Row R S P
  row id resource_id scope_id r s p = record {
    id = id;
    resource_id = resource_id;
    scope_id = scope_id;
    row_resource = r;
    row_scope = s;
    row_span = p;
  }

  two_resources-rows :
      (k1 k2 sk1 sk2 : Str) (e1 e2 : Str × Value) (es1 es2 : Attributes) (r1 r2 : R) (s1 s2 : S)
      (p1 p2 : P)
      → str_eq [] k1 ≡ false
      → str_eq k1 k2 ≡ false
      → str_eq [] sk1 ≡ false
      → rows_of (span_in k1 e1 es1 r1 sk1 [] s1 [] p1 ∷ span_in k2 e2 es2 r2 sk2 [] s2 [] p2 ∷ [])
        ≡ ok (row null (word 0) null r1 s1 p1 ∷ row null (word 1) null r2 s2 p2 ∷ [])
  unfolding rows_of new_traces_builder
  two_resources-rows k1 k2 sk1 sk2 e1 e2 es1 es2 r1 r2 s1 s2 p1 p2 h1 h2 h3 =
      elim (Bool-cases (str_eq sk1 sk2)) [ inl h4 ↦ ground arith | inr h4 ↦ ground arith ]

  bare_after-rows :
      (k sk : Str) (e a : Str × Value) (es more : Attributes) (r : R) (s : S) (p1 p2 : P)
      → str_eq [] k ≡ false
      → str_eq [] sk ≡ false
      → rows_of (span_in k e es r sk [] s (a ∷ more) p1 ∷ span_in k e es r sk [] s [] p2 ∷ [])
        ≡ ok (row (word 0) (word 0) null r s p1 ∷ row null (word 0) null r s p2 ∷ [])
  unfolding rows_of new_traces_builder
  bare_after-rows k sk e a es more r s p1 p2 h1 h2 = ground (arith, str_eq_refl k, str_eq_refl sk)

  module _ {M : Type 0} (stores : Stores M) where
    -- Two resources with attributes and different ids, each with one scope without attributes and in
    -- it one span without attributes, events and links, where the first resource's id and its scope's
    -- are not empty: the reader makes both resources, but one scope, in the first resource, and both
    -- spans are in it.
    pub two_resources-misplaced :
        (k1 k2 sk1 sk2 : Str) (e1 e2 : Str × Value) (es1 es2 : Attributes) (r1 r2 : R) (s1 s2 : S)
        (p1 p2 : P)
        → str_eq [] k1 ≡ false
        → str_eq k1 k2 ≡ false
        → str_eq [] sk1 ≡ false
        → (rows_of
              (span_in k1 e1 es1 r1 sk1 [] s1 [] p1 ∷ span_in k2 e2 es2 r2 sk2 [] s2 [] p2 ∷ [])
            >>= λ rows. ok (traces_from_rows stores rows))
          ≡ ok (record {
            resources =
                (stores.resource_attrs_by_id 0, r1) ∷ (stores.resource_attrs_by_id 1, r2) ∷ [];
            scopes = (0, (stores.scope_attrs_by_id 0, s1)) ∷ [];
            spans =
                (0, (stores.span_attrs_by_id 0, p1)) ∷ (0, (stores.span_attrs_by_id 0, p2)) ∷ [];
          })
    unfolding traces_from_rows
    two_resources-misplaced k1 k2 sk1 sk2 e1 e2 es1 es2 r1 r2 s1 s2 p1 p2 h1 h2 h3 =
        rw (two_resources-rows k1 k2 sk1 sk2 e1 e2 es1 es2 r1 r2 s1 s2 p1 p2 h1 h2 h3)
          (simp (zero_sum 0 (omega arith), zero_sum 1 (omega arith)))

    -- A span without attributes, events and links after one with attributes, in one resource with
    -- attributes and one scope without, whose ids are not empty, is read with the attributes of the
    -- span before it.
    pub bare_span-misplaced :
        (k sk : Str) (e a : Str × Value) (es more : Attributes) (r : R) (s : S) (p1 p2 : P)
        → str_eq [] k ≡ false
        → str_eq [] sk ≡ false
        → (rows_of (span_in k e es r sk [] s (a ∷ more) p1 ∷ span_in k e es r sk [] s [] p2 ∷ [])
            >>= λ rows. ok (traces_from_rows stores rows))
          ≡ ok (record {
            resources = (stores.resource_attrs_by_id 0, r) ∷ [];
            scopes = (0, (stores.scope_attrs_by_id 0, s)) ∷ [];
            spans =
                (0, (stores.span_attrs_by_id 0, p1)) ∷ (0, (stores.span_attrs_by_id 0, p2)) ∷ [];
          })
    unfolding traces_from_rows
    bare_span-misplaced k sk e a es more r s p1 p2 h1 h2 =
        rw (bare_after-rows k sk e a es more r s p1 p2 h1 h2) (simp (zero_sum 0 (omega arith)))
