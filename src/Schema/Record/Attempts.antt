-- ===== src/Schema/Record/Attempts.antt =====
-- NewRecord of RecordBuilderExt (builder/record.go of pkg/otel/common/schema): the record, or an
-- update of the schema.
use otel_arrow_adapter.Base.{
  ◌≡◌, ◌≢◌, ◌⊎◌, refl, sym, subst, ◌∙◌, inl, inr, true, false, ◌==◌, Option, none, some, ok, ◌>>=◌,
  arith, Bool-cases, if◌then◌else◌, bind-ok, ok_injective,
}
use otel_arrow_adapter.Schema.Dictionary.{Shared}
use otel_arrow_adapter.Schema.Tree.{Table}
use otel_arrow_adapter.Schema.NewSchema.{ArrowTypes, new_schema_from}
use otel_arrow_adapter.Schema.NewSchema.Adapted.{AllFit}
use otel_arrow_adapter.Schema.Record.{
  Columns, RecordBuilderExt, is_schema_up_to_date, refuse, new_record, detect_each,
}
use otel_arrow_adapter.Schema.Record.Tables.{Passed, shapes}
use otel_arrow_adapter.Schema.Record.Passes.{EachHasRoom, each-Passed}
use otel_arrow_adapter.Schema.Record.Current.{new_schema_from-shapes}
use otel_arrow_adapter.Schema.Record.Steps.{is_zero, IsConsistent, refuse-IsConsistent}
use otel_arrow_adapter.Schema.Record.Returns.{ids_of, EachFits, each-returns}

module _ (arrow : ArrowTypes) where
  -- What NewRecord may do to a record builder: it gives the record, where no update was requested
  -- and the columns have room in the dictionaries, and it refuses it otherwise.
  pub data Recorded (rb : RecordBuilderExt) (cs : Columns)
      : Option Columns × RecordBuilderExt → Type 0 where
    recorded :
        {rb' : RecordBuilderExt}
        → rb.shared.count ≡ 0
        → rb'.shared.count ≡ 0
        → rb'.schema ≡ rb.schema
        → shapes rb'.dictionaries ≡ shapes rb.dictionaries
        → EachHasRoom arrow rb.schema cs (shapes rb.dictionaries)
        → IsConsistent arrow rb'
        → Recorded rb cs (some cs, rb')
    refused :
        {rb' : RecordBuilderExt}
        → (rb.shared.count ≢ 0) ⊎ (EachHasRoom arrow rb.schema cs (shapes rb.dictionaries) → ⊥)
        → rb'.shared.count ≡ 0
        → IsConsistent arrow rb'
        → Recorded rb cs (none, rb')

  -- The record builder after a pass over the columns.
  observed-IsConsistent :
      (rb : RecordBuilderExt) (cs : Columns) (table : Table) (s : Shared)
      → IsConsistent arrow rb
      → Passed (λ ts. EachHasRoom arrow rb.schema cs ts) rb.dictionaries rb.shared table s
      → (s.count ≡ 0 → new_schema_from arrow table rb.proto_schema rb.transform_tree ≡ ok rb.schema)
      → IsConsistent arrow (record rb { dictionaries = table; shared = s })
  observed-IsConsistent rb cs table s k p current = record {
    prototypes = k.prototypes;
    valid = p.valid;
    fits = subst (λ n. AllFit n rb.proto_schema rb.transform_tree) (sym p.same_length) k.fits;
    adapted = k.adapted;
    current = current;
  }

  observed-Recorded :
      (rb : RecordBuilderExt) (cs : Columns) (table : Table) (s : Shared)
      (r : Option Columns × RecordBuilderExt)
      → IsConsistent arrow rb
      → rb.shared.count ≡ 0
      → Passed (λ ts. EachHasRoom arrow rb.schema cs ts) rb.dictionaries rb.shared table s
      → (if is_schema_up_to_date (record rb { dictionaries = table; shared = s })
          then ok (some cs, record rb { dictionaries = table; shared = s })
          else refuse arrow (record rb { dictionaries = table; shared = s }))
        ≡ ok r
      → Recorded rb cs r
  unfolding is_schema_up_to_date
  observed-Recorded rb cs table s r k z p e = elim (Bool-cases (s.count == 0)) [
    | inl quiet ↦
        let same = p.quiet (is_zero s.count quiet ∙ sym z) in
        let is_r : (some cs, rb2) ≡ r = ok_injective (sym (rw quiet refl) ∙ e) in
        subst (Recorded rb cs) is_r (
          recorded z (is_zero s.count quiet) refl same.0 same.1 (
            observed-IsConsistent rb cs table s k p
              (λ _. new_schema_from-shapes arrow table rb.dictionaries same.0 _ _ ∙ k.current z)))
    | inr asked ↦
        let (rb', e', z', k') =
          refuse-IsConsistent arrow rb2 (
            observed-IsConsistent rb cs table s k p (λ nothing. absurd (not_zero asked nothing))) in
        let is_r : (none, rb') ≡ r = ok_injective (sym e' ∙ sym (rw asked refl) ∙ e) in
        subst (Recorded rb cs) is_r
          (refused (inr (p.noisy (λ same. not_zero asked (same ∙ z)))) z' k')
  ]
    where
      not_zero : (s.count == 0) ≡ false → s.count ≡ 0 → ⊥
      not_zero asked nothing = ground arith

      rb2 : RecordBuilderExt
      rb2 = record rb { dictionaries = table; shared = s }

  -- An up-to-date record builder looks at the columns first.
  pub new_record-looks :
      (rb : RecordBuilderExt) (cs : Columns) (r : Option Columns × RecordBuilderExt)
      → (rb.shared.count == 0) ≡ true
      → new_record arrow rb cs ≡ ok r
      → (st : Table × Shared) × (detect_each arrow rb.schema cs (rb.dictionaries, rb.shared)
          ≡ ok st)
        × ((if is_schema_up_to_date (record rb { dictionaries = st.0; shared = st.1 })
              then ok (some cs, record rb { dictionaries = st.0; shared = st.1 })
              else refuse arrow (record rb { dictionaries = st.0; shared = st.1 }))
            ≡ ok r)
  unfolding new_record is_schema_up_to_date
  new_record-looks rb cs r quiet e =
      bind-ok (detect_each arrow rb.schema cs (rb.dictionaries, rb.shared))
        (λ st.
          if is_schema_up_to_date (record rb { dictionaries = st.0; shared = st.1 })
          then ok (some cs, record rb { dictionaries = st.0; shared = st.1 })
          else refuse arrow (record rb { dictionaries = st.0; shared = st.1 }))
        r opened
    where
      opened :
          (detect_each arrow rb.schema cs (rb.dictionaries, rb.shared) >>= λ st.
          if is_schema_up_to_date (record rb { dictionaries = st.0; shared = st.1 })
          then ok (some cs, record rb { dictionaries = st.0; shared = st.1 })
          else refuse arrow (record rb { dictionaries = st.0; shared = st.1 }))
          ≡ ok r
      opened = sym (rw (new_record, quiet) refl) ∙ e

  pub new_record-refuses :
      (rb : RecordBuilderExt) (cs : Columns)
      → (rb.shared.count == 0) ≡ false
      → new_record arrow rb cs ≡ refuse arrow rb
  unfolding new_record is_schema_up_to_date
  new_record-refuses rb cs asked = rw asked refl

  pub returned-Recorded :
      (rb : RecordBuilderExt) (cs : Columns) (r : Option Columns × RecordBuilderExt)
      → IsConsistent arrow rb
      → new_record arrow rb cs ≡ ok r
      → Recorded rb cs r
  returned-Recorded rb cs r k e = elim (Bool-cases (rb.shared.count == 0)) [
    | inl quiet ↦
        let (st, seen, after) = new_record-looks rb cs r quiet e in
        observed-Recorded rb cs st.0 st.1 r k (is_zero rb.shared.count quiet)
          (each-Passed arrow rb.schema cs rb.dictionaries rb.shared st k.valid seen) after
    | inr asked ↦
        let (rb', e', z, k') = refuse-IsConsistent arrow rb k in
        let is_r : (none, rb') ≡ r =
          ok_injective (sym e' ∙ sym (new_record-refuses rb cs asked) ∙ e) in
        subst (Recorded rb cs) is_r (refused (inl (requested asked)) z k')
  ]
    where
      requested : (rb.shared.count == 0) ≡ false → rb.shared.count ≢ 0
      requested asked nothing = ground arith

  -- After the pass over the columns there is a record or an update.
  observed-returns :
      (rb : RecordBuilderExt) (cs : Columns) (table : Table) (s : Shared)
      → IsConsistent arrow rb
      → Passed (λ ts. EachHasRoom arrow rb.schema cs ts) rb.dictionaries rb.shared table s
      → (r : Option Columns × RecordBuilderExt) × ((if is_schema_up_to_date
              (record rb { dictionaries = table; shared = s })
            then ok (some cs, record rb { dictionaries = table; shared = s })
            else refuse arrow (record rb { dictionaries = table; shared = s }))
          ≡ ok r)
  unfolding is_schema_up_to_date
  observed-returns rb cs table s k p = elim (Bool-cases (s.count == 0)) [
    | inl quiet ↦ ((some cs, record rb { dictionaries = table; shared = s }), rw quiet refl)
    | inr asked ↦
        let (rb', e, _, _) =
          refuse-IsConsistent arrow (record rb { dictionaries = table; shared = s })
            (observed-IsConsistent rb cs table s k p
              (λ nothing. absurd (some_left asked nothing))) in
        ((none, rb'), rw asked e)
  ]
    where
      some_left : (s.count == 0) ≡ false → s.count ≡ 0 → ⊥
      some_left asked nothing = ground arith

  -- A record builder that looks at the columns goes on with what it sees.
  new_record-observed :
      (rb : RecordBuilderExt) (cs : Columns) (st : Table × Shared)
      → (rb.shared.count == 0) ≡ true
      → detect_each arrow rb.schema cs (rb.dictionaries, rb.shared) ≡ ok st
      → new_record arrow rb cs ≡ (
          if is_schema_up_to_date (record rb { dictionaries = st.0; shared = st.1 })
          then ok (some cs, record rb { dictionaries = st.0; shared = st.1 })
          else refuse arrow (record rb { dictionaries = st.0; shared = st.1 }))
  unfolding new_record is_schema_up_to_date
  new_record-observed rb cs st quiet seen = rw (quiet, seen) refl

  new_record-returns :
      (rb : RecordBuilderExt) (cs : Columns)
      → IsConsistent arrow rb
      → EachFits arrow rb.schema cs (ids_of rb.dictionaries)
      → (r : Option Columns × RecordBuilderExt) × (new_record arrow rb cs ≡ ok r)
  new_record-returns rb cs k fits = elim (Bool-cases (rb.shared.count == 0)) [
    | inl quiet ↦
        let (st, seen, _) = each-returns arrow rb.schema cs rb.dictionaries rb.shared fits in
        let (r, e) =
          observed-returns rb cs st.0 st.1 k
            (each-Passed arrow rb.schema cs rb.dictionaries rb.shared st k.valid seen) in
        (r, new_record-observed rb cs st quiet seen ∙ e)
    | inr asked ↦
        let (rb', e, _, _) = refuse-IsConsistent arrow rb k in
        ((none, rb'), new_record-refuses rb cs asked ∙ e)
  ]

  -- On a consistent record builder, and columns that have the kinds of the schema's fields and whose
  -- dictionaries are in the table, NewRecord returns. It returns the record exactly when no update
  -- was requested and every dictionary column has room: then the schema and the index types stay as
  -- they are, and no update is requested. Otherwise it returns no record, but the builder is up to
  -- date again. In both cases the builder stays consistent.
  pub new_record-Recorded :
      (rb : RecordBuilderExt) (cs : Columns)
      → IsConsistent arrow rb
      → EachFits arrow rb.schema cs (ids_of rb.dictionaries)
      → (r : Option Columns × RecordBuilderExt) × (new_record arrow rb cs ≡ ok r) × Recorded rb cs r
  new_record-Recorded rb cs k fits =
      let (r, e) = new_record-returns rb cs k fits in (r, e, returned-Recorded rb cs r k e)
