-- ===== src/Examples/Spans.antt =====
-- Main records of a few spans.
use otel_arrow_adapter.Base.{
  ℕ, ◌≡◌, refl, false, some, List, [], ◌∷◌, map, ok, ◌>>=◌, arith, Str, str_eq,
}
use otel_arrow_adapter.Attrs.Value.{Value, str}
use otel_arrow_adapter.Traces.DeltaIds.{null, word}
use otel_arrow_adapter.Traces.Spans.{
  Attributes, FlattenedSpan, Row, Stores, rows_of, traces_from_rows, has_related_data,
}
use otel_arrow_adapter.Traces.Spans.Kept.{IsTree, payloads, traces_from_rows-IsTree}
use otel_arrow_adapter.Traces.Spans.Misplaced.{
  span_in, two_resources-misplaced, bare_span-misplaced,
}
use otel_arrow_adapter.Traces.Spans.OneScope.{IsIn, numbered, one_scope-written_and_read}

-- The attributes of an id are that id.
abbrev stores : Stores ℕ
stores = record {
  resource_attrs_by_id = λ id. some id;
  scope_attrs_by_id = λ id. some id;
  span_attrs_by_id = λ id. some id;
}

abbrev attr : Str × Value
attr = (97 ∷ [], str (98 ∷ []))

-- Rows as a schema without scope ids gives them.
abbrev three_rows : List (Row ℕ ℕ ℕ)
three_rows =
    record {
      id = null;
      resource_id = word 0;
      scope_id = null;
      row_resource = 10;
      row_scope = 20;
      row_span = 1;
    }
    ∷ record {
      id = word 0;
      resource_id = word 1;
      scope_id = word 1;
      row_resource = 11;
      row_scope = 21;
      row_span = 2;
    }
    ∷ record {
      id = word 1;
      resource_id = word 1;
      scope_id = word 0;
      row_resource = 12;
      row_scope = 22;
      row_span = 3;
    }
    ∷ []

traces_from_rows-IsTree_example :
    IsTree (traces_from_rows stores three_rows)
    × (payloads (traces_from_rows stores three_rows) ≡ map (λ row. row.row_span) three_rows)
traces_from_rows-IsTree_example = traces_from_rows-IsTree stores three_rows

abbrev span_of : Attributes → ℕ → FlattenedSpan ℕ ℕ ℕ
span_of attrs p = span_in (1 ∷ []) attr [] 10 (2 ∷ []) (attr ∷ []) 20 attrs p

span_of-IsIn : (p : ℕ) → IsIn (1 ∷ []) (2 ∷ []) (span_of (attr ∷ []) p)
unfolding has_related_data
span_of-IsIn p = record { resource_key = refl; scope_key = refl; related = refl }

some_key : (c : ℕ) → str_eq [] (c ∷ []) ≡ false
unfolding str_eq
some_key c = refl

one_scope-written_and_read_example :
    (rows_of (span_of (attr ∷ []) 7 ∷ span_of (attr ∷ []) 8 ∷ []) >>= λ rows.
    ok (traces_from_rows stores rows))
    ≡ ok (record {
      resources = (some 0, 10) ∷ [];
      scopes = (0, (some 0, 20)) ∷ [];
      spans = numbered stores 0 (span_of (attr ∷ []) 7 ∷ span_of (attr ∷ []) 8 ∷ []);
    })
one_scope-written_and_read_example =
    one_scope-written_and_read stores (1 ∷ []) (2 ∷ []) attr attr [] [] (span_of (attr ∷ []) 7)
      (span_of (attr ∷ []) 8 ∷ []) (span_of-IsIn 7, (span_of-IsIn 8, tt)) (some_key 1) (some_key 2)
      refl refl (omega arith)

different_keys : str_eq (1 ∷ []) (3 ∷ []) ≡ false
unfolding str_eq
different_keys = refl

two_resources-misplaced_example :
    (rows_of {R = ℕ} {S = ℕ} {P = ℕ} (
        span_in (1 ∷ []) attr [] 10 (2 ∷ []) [] 20 [] 7
        ∷ span_in (3 ∷ []) attr [] 11 (4 ∷ []) [] 21 [] 8
        ∷ [])
      >>= λ rows. ok (traces_from_rows stores rows))
    ≡ ok (record {
      resources = (some 0, 10) ∷ (some 1, 11) ∷ [];
      scopes = (0, (some 0, 20)) ∷ [];
      spans = (0, (some 0, 7)) ∷ (0, (some 0, 8)) ∷ [];
    })
two_resources-misplaced_example =
    two_resources-misplaced stores (1 ∷ []) (3 ∷ []) (2 ∷ []) (4 ∷ []) attr attr [] [] 10 11 20 21 7
      8 (some_key 1) different_keys (some_key 2)

bare_span-misplaced_example :
    (rows_of {R = ℕ} {S = ℕ} {P = ℕ} (
        span_in (1 ∷ []) attr [] 10 (2 ∷ []) [] 20 (attr ∷ []) 7
        ∷ span_in (1 ∷ []) attr [] 10 (2 ∷ []) [] 20 [] 8
        ∷ [])
      >>= λ rows. ok (traces_from_rows stores rows))
    ≡ ok (record {
      resources = (some 0, 10) ∷ [];
      scopes = (0, (some 0, 20)) ∷ [];
      spans = (0, (some 0, 7)) ∷ (0, (some 0, 8)) ∷ [];
    })
bare_span-misplaced_example =
    bare_span-misplaced stores (1 ∷ []) (2 ∷ []) attr attr [] [] 10 20 7 8 (some_key 1) (some_key 2)
