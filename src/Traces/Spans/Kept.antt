-- ===== src/Traces/Spans/Kept.antt =====
-- What TracesFrom keeps of the rows of the main record (pkg/otel/traces/otlp/traces.go).
use otel_arrow_adapter.Base.{
  ℕ, suc, ◌-◌, ◌<◌, ◌≤◌, ◌≡◌, refl, sym, ap, ◌∙◌, ◌⊎◌, inl, inr, Bool, true, false, Option, none,
  some, List, [], ◌∷◌, ◌++◌, map, length, arith,
}
use mathlib.Core.List.{append-nil, append_assoc, map-append}
use otel_arrow_adapter.Traces.Spans.{
  Row, Read, Stores, ReaderState, u16_from, is_id, attrs_of, new_reader, read_resource, read_scope,
  read_span, read_rows, traces_from_rows,
}

module _ {A : Type 0} where
  -- The positions of the entries are below a bound.
  abbrev pub AllBelow : ℕ → List (ℕ × A) → Type 0
  AllBelow n [] = Unit
  AllBelow n (x ∷ rest) = (x.0 < n) × AllBelow n rest

  pub AllBelow-le : (m n : ℕ) (xs : List (ℕ × A)) → m ≤ n → AllBelow m xs → AllBelow n xs
  AllBelow-le m n [] h a = tt
  AllBelow-le m n (x ∷ rest) h (lt, below) = (omega arith, AllBelow-le m n rest h below)

  pub AllBelow-append :
      (n : ℕ) (xs : List (ℕ × A)) (i : ℕ) (a : A)
      → AllBelow n xs
      → i < n
      → AllBelow n (xs ++ (i, a) ∷ [])
  AllBelow-append n [] i a b h = (h, tt)
  AllBelow-append n (x ∷ rest) i a (lt, below) h = (lt, AllBelow-append n rest i a below h)

there : (prev : Option ℕ) (id n : ℕ) → (prev ≡ none) ⊎ (0 < n) → is_id prev id ≡ true → 0 < n
there none id n h e = ground arith
there (some p) id n h e = ground arith

longer {ℓ} : {A : Type ℓ} (xs : List A) (x : A) → length (xs ++ x ∷ []) ≡ suc (length xs)
longer [] x = refl
longer (y ∷ ys) x = omega (arith, longer ys x)

module _ {R S P M : Type 0} where
  abbrev pub payloads : Read R S P M → List P
  payloads r = map (λ s. s.1.1) r.spans

  -- Every scope belongs to a resource that is there, and every span to a scope that is there.
  abbrev pub IsTree : Read R S P M → Type 0
  IsTree r = AllBelow (length r.resources) r.scopes × AllBelow (length r.scopes) r.spans

  -- Once an id has been read, there is a group.
  record InRange (st : ReaderState R S P M) : Type 0 where
    pub is_tree : IsTree st.built
    pub resource_there : (st.prev_res_id ≡ none) ⊎ (0 < length st.built.resources)
    pub scope_there : (st.prev_scope_id ≡ none) ⊎ (0 < length st.built.scopes)

  module _ (stores : Stores M) where
    -- The resource of a row is there, and the spans are unchanged.
    read_resource-InRange :
        (st : ReaderState R S P M) (row : Row R S P)
        → InRange st
        → InRange (read_resource stores st row)
          × (0 < length (read_resource stores st row).built.resources)
          × ((read_resource stores st row).built.spans ≡ st.built.spans)
    unfolding read_resource
    read_resource-InRange st row v =
        same_or_new (is_id st.prev_res_id (u16_from row.resource_id)) refl
      where
        new_one : Option M × R
        new_one = (
          (attrs_of stores.resource_attrs_by_id st.last_resource row.resource_id).0,
          row.row_resource,
        )

        same_or_new :
            (b : Bool)
            → is_id st.prev_res_id (u16_from row.resource_id) ≡ b
            → InRange (read_resource stores st row)
              × (0 < length (read_resource stores st row).built.resources)
              × ((read_resource stores st row).built.spans ≡ st.built.spans)
        same_or_new true e =
            rw (read_resource, e) (v, there st.prev_res_id _ _ v.resource_there e, refl)
        same_or_new false e =
            rw (read_resource, e)
              (
                record {
                  is_tree = (
                    AllBelow-le _ _ st.built.scopes
                        (omega (arith, longer st.built.resources new_one)) v.is_tree.0,
                    v.is_tree.1,
                  );
                  resource_there = inr (omega (arith, longer st.built.resources new_one));
                  scope_there = v.scope_there;
                },
                omega (arith, longer st.built.resources new_one),
                refl,
              )

    read_scope-InRange :
        (st : ReaderState R S P M) (row : Row R S P)
        → InRange st
        → 0 < length st.built.resources
        → InRange (read_scope stores st row)
          × (0 < length (read_scope stores st row).built.scopes)
          × ((read_scope stores st row).built.spans ≡ st.built.spans)
    unfolding read_scope
    read_scope-InRange st row v some_resource =
        same_or_new (is_id st.prev_scope_id (u16_from row.scope_id)) refl
      where
        attrs : Option M
        attrs = (attrs_of stores.scope_attrs_by_id st.last_scope row.scope_id).0

        same_or_new :
            (b : Bool)
            → is_id st.prev_scope_id (u16_from row.scope_id) ≡ b
            → InRange (read_scope stores st row)
              × (0 < length (read_scope stores st row).built.scopes)
              × ((read_scope stores st row).built.spans ≡ st.built.spans)
        same_or_new true e =
            rw (read_scope, e) (v, there st.prev_scope_id _ _ v.scope_there e, refl)
        same_or_new false e =
            let more =
              longer st.built.scopes (length st.built.resources - 1, (attrs, row.row_scope)) in
            rw (read_scope, e)
              (
                record {
                  is_tree = (
                    AllBelow-append _ st.built.scopes (length st.built.resources - 1)
                        (attrs, row.row_scope) v.is_tree.0 (omega arith),
                    AllBelow-le _ _ st.built.spans (omega (arith, more)) v.is_tree.1,
                  );
                  resource_there = v.resource_there;
                  scope_there = inr (omega (arith, more));
                },
                omega (arith, more),
                refl,
              )

    read_span-InRange :
        (st : ReaderState R S P M) (row : Row R S P)
        → InRange st
        → 0 < length st.built.scopes
        → InRange (read_span stores st row)
          × (payloads (read_span stores st row).built ≡ payloads st.built ++ row.row_span ∷ [])
    unfolding read_span
    read_span-InRange st row v some_scope = (
      record {
        is_tree = (
          v.is_tree.0,
          AllBelow-append _ st.built.spans (length st.built.scopes - 1) _ v.is_tree.1 (omega arith),
        );
        resource_there = v.resource_there;
        scope_there = v.scope_there;
      },
      map-append (λ s. s.1.1) st.built.spans _,
    )

    read_rows-InRange :
        (st : ReaderState R S P M) (rows : List (Row R S P))
        → InRange st
        → InRange (read_rows stores st rows)
          × (payloads (read_rows stores st rows).built
              ≡ payloads st.built ++ map (λ row. row.row_span) rows)
    unfolding read_rows
    read_rows-InRange st [] v = (v, sym (append-nil (payloads st.built)))
    read_rows-InRange st (row ∷ rows) v =
        let (v1, some_resource, e1) = read_resource-InRange st row v in
        let st1 = read_resource stores st row in
        let (v2, some_scope, e2) = read_scope-InRange st1 row v1 some_resource in
        let st2 = read_scope stores st1 row in
        let (v3, e3) = read_span-InRange st2 row v2 some_scope in
        let (v4, e4) = read_rows-InRange (read_span stores st2 row) rows v3 in
        (
          v4,
          e4
              ∙ ap (λ t. t ++ map (λ r. r.row_span) rows)
                  (e3 ∙ ap (λ spans. map (λ s. s.1.1) spans ++ row.row_span ∷ []) (e2 ∙ e1))
              ∙ append_assoc (payloads st.built) (row.row_span ∷ []) (map (λ r. r.row_span) rows),
        )

    -- Whatever the id columns hold, every row becomes one span, in the order of the rows, each span
    -- belongs to a scope, and each scope to a resource.
    pub traces_from_rows-IsTree :
        (rows : List (Row R S P))
        → IsTree (traces_from_rows stores rows)
          × (payloads (traces_from_rows stores rows) ≡ map (λ row. row.row_span) rows)
    unfolding traces_from_rows new_reader
    traces_from_rows-IsTree rows =
        let (v, e) =
          read_rows-InRange (new_reader stores) rows
            (record { is_tree = (tt, tt); resource_there = inl refl; scope_there = inl refl }) in
        (v.is_tree, e)
