-- ===== src/Traces/Spans/OneScope.antt =====
-- Spans of one resource and one scope, written by Append (pkg/otel/traces/arrow/traces.go) and read
-- by TracesFrom (pkg/otel/traces/otlp/traces.go).
use otel_arrow_adapter.Base.{
  ℕ, suc, ◌+◌, ◌<◌, ◌≤◌, ◌≡◌, refl, sym, ap, ◌∙◌, true, false, Option, some, List, [], ◌∷◌, ◌++◌,
  map, length, arith, Str, str_eq, str_eq_refl, ok, ◌>>=◌, u16_mod, add_word-zero,
  add_word-eq_of_lt,
}
use mathlib.Core.List.{append-nil, append_assoc}
use otel_arrow_adapter.Attrs.Value.{Value}
use otel_arrow_adapter.Attrs.Accumulator.{
  Accumulator, new_accumulator, append_with_id, with_parent_named, with_parent,
}
use otel_arrow_adapter.Traces.DeltaIds.{plain, Cell, null, word, DeltaBuilder}
use otel_arrow_adapter.Traces.DeltaIds
use otel_arrow_adapter.Traces.Spans.{
  Attributes, FlattenedSpan, Row, Stores, ReaderState, TracesBuilder, new_traces_builder,
  has_related_data, append_span, append_spans, rows_of, traces_from_rows, new_reader, read_rows,
  read_resource, read_scope, read_span, append_id,
}

append_with_id-ok :
    (c : Accumulator) (id : ℕ) (attrs : Attributes)
    → c.attrs_map_count < 65535
    → (c' : Accumulator) × (append_with_id 65535 c id attrs ≡ ok c')
      × (c'.attrs_map_count ≤ suc c.attrs_map_count)
unfolding append_with_id
append_with_id-ok c id [] h = (c, refl, omega arith)
append_with_id-ok c id (e ∷ entries) h = (
  record {
    attrs_map_count = suc c.attrs_map_count;
    attrs = c.attrs ++ with_parent_named id (e ∷ entries);
  },
  ground arith,
  omega arith,
)

-- A builder of ids that stands at an id.
record At (b : DeltaBuilder) (prev : ℕ) : Type 0 where
  pub column : b.column ≡ plain
  pub max_delta : b.max_delta ≡ 1
  pub started : 0 < b.len
  pub stands : b.prev ≡ prev

append_id-same :
    (b : DeltaBuilder) (id : ℕ)
    → At b id
    → (b' : DeltaBuilder) × (append_id b (some id) ≡ ok (word 0, b')) × At b' id
unfolding append_id DeltaIds.append
append_id-same b id v = (
  record b { len = suc b.len; prev = id },
  ground arith,
  record { column = v.column; max_delta = v.max_delta; started = omega arith; stands = refl },
)

append_id-next :
    (b : DeltaBuilder) (id : ℕ)
    → At b id
    → (b' : DeltaBuilder) × (append_id b (some (suc id)) ≡ ok (word 1, b')) × At b' (suc id)
unfolding append_id DeltaIds.append
append_id-next b id v = (
  record b { len = suc b.len; prev = suc id },
  ground arith,
  record { column = v.column; max_delta = v.max_delta; started = omega arith; stands = refl },
)

module _ (k sk : Str) where
  -- After `suc n` spans.
  record After (b : TracesBuilder) (n : ℕ) : Type 0 where
    pub at_span : b.span_id ≡ suc n
    pub resource_key : b.res_span_id ≡ k
    pub scope_key : b.scope_span_id ≡ sk
    pub resource : b.res_id ≡ some 0
    pub scope : b.scope_id ≡ some 0
    pub groups : b.span_accumulator.attrs_map_count ≤ suc n
    pub ids : At b.ib n
    pub resource_ids : At b.rb 0
    pub scope_ids : At b.scb 0

same_key : (prev key key' : Str) → prev ≡ key' → key ≡ key' → str_eq prev key ≡ true
same_key prev key key' e f = rw (e, f) (str_eq_refl key')

module _ {R S P : Type 0} where
  abbrev first_row : FlattenedSpan R S P → Row R S P
  first_row f = record {
    id = word 0;
    resource_id = word 0;
    scope_id = word 0;
    row_resource = f.resource;
    row_scope = f.scope;
    row_span = f.span;
  }

  abbrev later_row : FlattenedSpan R S P → Row R S P
  later_row f = record {
    id = word 1;
    resource_id = word 0;
    scope_id = word 0;
    row_resource = f.resource;
    row_scope = f.scope;
    row_span = f.span;
  }

module _ {R S P : Type 0} (k sk : Str) where
  -- A span of the resource and the scope, with related data.
  pub record IsIn (f : FlattenedSpan R S P) : Type 0 where
    pub resource_key : f.resource_span_id ≡ k
    pub scope_key : f.scope_span_id ≡ sk
    pub related : has_related_data f ≡ true

  abbrev pub AllIn : List (FlattenedSpan R S P) → Type 0
  AllIn [] = Unit
  AllIn (f ∷ fs) = IsIn f × AllIn fs

  append_span-After :
      (b : TracesBuilder) (f : FlattenedSpan R S P) (n : ℕ)
      → After k sk b n
      → IsIn f
      → suc n < 65535
      → (b' : TracesBuilder) × (append_span b f ≡ ok (later_row f, b')) × After k sk b' (suc n)
  unfolding append_span
  append_span-After b f n v g h =
      let (ib, e1, at1) = append_id-next b.ib n v.ids in
      let (rb, e2, at2) = append_id-same b.rb 0 v.resource_ids in
      let (scb, e3, at3) = append_id-same b.scb 0 v.scope_ids in
      let (c, e4, le) =
        append_with_id-ok b.span_accumulator (suc n) f.span_attrs (omega (arith, v.groups)) in
      let same_resource =
        same_key b.res_span_id f.resource_span_id k v.resource_key g.resource_key in
      let same_scope = same_key b.scope_span_id f.scope_span_id sk v.scope_key g.scope_key in
      (
        record {
          span_id = suc n + 1;
          res_span_id = f.resource_span_id;
          scope_span_id = f.scope_span_id;
          res_id = b.res_id;
          scope_id = b.scope_id;
          resource_accumulator = b.resource_accumulator;
          scope_accumulator = b.scope_accumulator;
          span_accumulator = c;
          ib = ib;
          rb = rb;
          scb = scb;
        },
        simp (
          append_span,
          g.related,
          v.at_span,
          e1,
          same_resource,
          v.resource,
          e2,
          same_scope,
          v.scope,
          e3,
          e4,
          add_word-eq_of_lt u16_mod (suc n) 1 (omega arith),
        ),
        record {
          at_span = omega arith;
          resource_key = g.resource_key;
          scope_key = g.scope_key;
          resource = v.resource;
          scope = v.scope;
          groups = omega (arith, le, v.groups);
          ids = at1;
          resource_ids = at2;
          scope_ids = at3;
        },
      )

  append_spans-After :
      (b : TracesBuilder) (fs : List (FlattenedSpan R S P)) (n : ℕ)
      → After k sk b n
      → AllIn fs
      → suc n + length fs ≤ 65535
      → (b' : TracesBuilder) × (append_spans b fs ≡ ok (map later_row fs, b'))
  unfolding append_spans
  append_spans-After b [] n v g h = (b, refl)
  append_spans-After b (f ∷ fs) n v (g, gs) h =
      let (b1, e1, v1) = append_span-After b f n v g (omega arith) in
      let (b2, e2) = append_spans-After b1 fs (suc n) v1 gs (omega arith) in (b2, rw (e1, e2) refl)

  -- The first span makes the resource and the scope, both with attributes.
  first_span-After :
      (f : FlattenedSpan R S P) (e d : Str × Value) (es ds : Attributes)
      → IsIn f
      → str_eq [] k ≡ false
      → str_eq [] sk ≡ false
      → f.resource_attrs ≡ e ∷ es
      → f.scope_attrs ≡ d ∷ ds
      → (b' : TracesBuilder) × (append_span (new_traces_builder plain plain plain) f
          ≡ ok (first_row f, b'))
        × After k sk b' 0
  unfolding append_span new_traces_builder
  first_span-After f e d es ds g hk hs er ed =
      let new_resource : str_eq [] f.resource_span_id ≡ false = rw g.resource_key hk in
      let new_scope : str_eq [] f.scope_span_id ≡ false = rw g.scope_key hs in
      let (c, e4, le) = append_with_id-ok new_accumulator 0 f.span_attrs (omega arith) in
      (
        record {
          span_id = 0 + 1;
          res_span_id = f.resource_span_id;
          scope_span_id = f.scope_span_id;
          res_id = some 0;
          scope_id = some 0;
          resource_accumulator = record { attrs_map_count = 1; attrs = with_parent 0 (e ∷ es) };
          scope_accumulator = record { attrs_map_count = 1; attrs = with_parent 0 (d ∷ ds) };
          span_accumulator = c;
          ib = record { column = plain; len = 1; prev = 0; max_delta = 1; requests = 0 };
          rb = record { column = plain; len = 1; prev = 0; max_delta = 1; requests = 0 };
          scb = record { column = plain; len = 1; prev = 0; max_delta = 1; requests = 0 };
        },
        simp (
          append_span,
          g.related,
          new_resource,
          er,
          new_scope,
          ed,
          e4,
          add_word-eq_of_lt u16_mod 0 1 (omega arith),
        ),
        record {
          at_span = omega arith;
          resource_key = g.resource_key;
          scope_key = g.scope_key;
          resource = refl;
          scope = refl;
          groups = le;
          ids = record { column = refl; max_delta = refl; started = omega arith; stands = refl };
          resource_ids = record {
            column = refl;
            max_delta = refl;
            started = omega arith;
            stands = refl;
          };
          scope_ids = record {
            column = refl;
            max_delta = refl;
            started = omega arith;
            stands = refl;
          };
        },
      )

module _ {R S P M : Type 0} (stores : Stores M) where
  -- The spans in the only scope, with the attributes of their numbers.
  abbrev pub numbered : ℕ → List (FlattenedSpan R S P) → List (ℕ × (Option M × P))
  numbered n [] = []
  numbered n (f ∷ fs) = (0, (stores.span_attrs_by_id n, f.span)) ∷ numbered (n + 1) fs

  -- One more row of the same resource and scope.
  read_one :
      (st : ReaderState R S P M) (f : FlattenedSpan R S P)
      → st.prev_res_id ≡ some 0
      → st.prev_scope_id ≡ some 0
      → length st.built.scopes ≡ 1
      → suc st.last_span < 65536
      → read_span stores
          (read_scope stores (read_resource stores st (later_row f)) (later_row f))
          (later_row f)
        ≡ record st {
          last_span = st.last_span + 1;
          built = record st.built {
            spans =
                st.built.spans ++ (0, (stores.span_attrs_by_id (st.last_span + 1), f.span)) ∷ [];
          };
        }
  unfolding read_resource read_scope read_span
  read_one st f a b d h = simp (a, b, d, add_word-eq_of_lt u16_mod st.last_span 1 (omega arith))

  read_later :
      (st : ReaderState R S P M) (fs : List (FlattenedSpan R S P))
      → st.prev_res_id ≡ some 0
      → st.prev_scope_id ≡ some 0
      → length st.built.scopes ≡ 1
      → st.last_span + length fs < 65536
      → (read_rows stores st (map later_row fs)).built
        ≡ record st.built { spans = st.built.spans ++ numbered (st.last_span + 1) fs }
  unfolding read_rows
  read_later st [] a b d h =
      ap (λ spans. record st.built { spans = spans }) (sym (append-nil st.built.spans))
  read_later st (f ∷ fs) a b d h =
      ap (λ s. (read_rows stores s (map later_row fs)).built) (read_one st f a b d (omega arith))
      ∙ read_later
          (record st {
            last_span = st.last_span + 1;
            built = record st.built {
              spans =
                  st.built.spans ++ (0, (stores.span_attrs_by_id (st.last_span + 1), f.span)) ∷ [];
            };
          })
          fs a b d (omega arith)
      ∙ ap (λ spans. record st.built { spans = spans })
          (append_assoc st.built.spans
            ((0, (stores.span_attrs_by_id (st.last_span + 1), f.span)) ∷ [])
            (numbered (st.last_span + 1 + 1) fs))

  -- The state after the first row.
  abbrev started : FlattenedSpan R S P → ReaderState R S P M
  started f = record {
    prev_res_id = some 0;
    prev_scope_id = some 0;
    last_resource = 0;
    last_scope = 0;
    last_span = 0;
    built = record {
      resources = (stores.resource_attrs_by_id 0, f.resource) ∷ [];
      scopes = (0, (stores.scope_attrs_by_id 0, f.scope)) ∷ [];
      spans = (0, (stores.span_attrs_by_id 0, f.span)) ∷ [];
    };
  }

  read_first :
      (f : FlattenedSpan R S P)
      → read_span stores
          (read_scope stores (read_resource stores (new_reader stores) (first_row f)) (first_row f))
          (first_row f)
        ≡ started f
  unfolding read_resource read_scope read_span new_reader
  read_first f = simp (add_word-zero u16_mod 0 (omega arith))

  -- Spans of one resource and one scope, both with ids and attributes, where every span has attributes,
  -- events or links, and there are at most 65535: they are written without a panic, and read as
  -- one resource with one scope and all the spans in their order, each with the attributes of its
  -- own number.
  pub one_scope-written_and_read :
      (k sk : Str) (e d : Str × Value) (es ds : Attributes) (f : FlattenedSpan R S P)
      (fs : List (FlattenedSpan R S P))
      → AllIn k sk (f ∷ fs)
      → str_eq [] k ≡ false
      → str_eq [] sk ≡ false
      → f.resource_attrs ≡ e ∷ es
      → f.scope_attrs ≡ d ∷ ds
      → length fs < 65535
      → (rows_of (f ∷ fs) >>= λ rows. ok (traces_from_rows stores rows))
        ≡ ok (record {
          resources = (stores.resource_attrs_by_id 0, f.resource) ∷ [];
          scopes = (0, (stores.scope_attrs_by_id 0, f.scope)) ∷ [];
          spans = numbered 0 (f ∷ fs);
        })
  unfolding rows_of append_spans traces_from_rows read_rows
  one_scope-written_and_read k sk e d es ds f fs (g, gs) hk hs er ed h =
      let (b1, e1, v1) = first_span-After k sk f e d es ds g hk hs er ed in
      let (b2, e2) = append_spans-After k sk b1 fs 0 v1 gs (omega arith) in
      let written : rows_of (f ∷ fs) ≡ ok (first_row f ∷ map later_row fs) = rw (e1, e2) refl in
      ap (λ r. r >>= λ rows. ok (traces_from_rows stores rows)) written
      ∙ ap ok (
          ap (λ s. (read_rows stores s (map later_row fs)).built) (read_first f)
          ∙ read_later (started f) fs refl refl refl (omega arith))
