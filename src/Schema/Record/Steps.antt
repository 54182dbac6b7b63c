-- ===== src/Schema/Record/Steps.antt =====
-- The record builder over its life (RecordBuilderExt in builder/record.go of
-- pkg/otel/common/schema): its creation, requests for columns, and
-- updates of the schema.
use otel_arrow_adapter.Base.{
  ℕ, ◌+◌, ◌≡◌, refl, sym, subst, true, ◌==◌, none, some, List, [], length, ok, arith, Str,
}
use otel_arrow_adapter.Schema.Types.{Fields}
use otel_arrow_adapter.Schema.Dictionary.{Dictionary, reset, inc}
use otel_arrow_adapter.Schema.Tree.{new_transform_tree_from}
use otel_arrow_adapter.Schema.NewSchema.{ArrowTypes, new_schema_from}
use otel_arrow_adapter.Schema.NewSchema.Adapted.{AllFit, ArePrototypes, AdaptedFields}
use otel_arrow_adapter.Schema.NewSchema.Transforms.{AllValid}
use otel_arrow_adapter.Schema.NewSchema.Adapts.{new_schema_from-Adapted}
use otel_arrow_adapter.Schema.NewSchema.Trees.{
  Grows, grown, IsConfig, new_transform_tree_from-Grows,
}
use otel_arrow_adapter.Schema.Record.{
  RecordBuilderExt, revert_nodes, request_column, new_record_builder, no_events, update_schema,
  refuse,
}
use otel_arrow_adapter.Schema.Record.Keeping.{revert_nodes-Kept, remove_at-AllFit}

pub is_zero : (n : ℕ) → (n == 0) ≡ true → n ≡ 0
is_zero n h = ground arith

module _ (arrow : ArrowTypes) where
  -- The parts of a record builder belong together: the tree has the shape of the prototype over the
  -- table, the schema is adapted from the prototype, and it is the schema of the tree while no
  -- update is requested.
  pub record IsConsistent (rb : RecordBuilderExt) : Type 0 where
    pub prototypes : ArePrototypes rb.proto_schema
    pub valid : AllValid rb.dictionaries
    pub fits : AllFit (length rb.dictionaries) rb.proto_schema rb.transform_tree
    pub adapted : AdaptedFields arrow rb.proto_schema rb.schema
    pub current :
        rb.shared.count ≡ 0
        → new_schema_from arrow rb.dictionaries rb.proto_schema rb.transform_tree ≡ ok rb.schema

  -- A new record builder does not panic.
  pub new_record_builder-IsConsistent :
      (itoa : ℕ → Str) (c : Dictionary) (prototype : Fields)
      → IsConfig c
      → ArePrototypes prototype
      → (rb : RecordBuilderExt) × (new_record_builder arrow itoa (some c) prototype ≡ ok rb)
        × IsConsistent rb
  unfolding new_record_builder
  new_record_builder-IsConsistent itoa c prototype config pr =
      from_tree (new_transform_tree_from-Grows itoa c config prototype)
    where
      from_tree :
          Grows
            (λ size ns. AllFit size prototype ns)
            []
            (new_transform_tree_from itoa (some c) prototype)
          → (rb : RecordBuilderExt) × (new_record_builder arrow itoa (some c) prototype ≡ ok rb)
            × IsConsistent rb
      from_tree (grown ns table e vs _ fit) =
          let (gs, made, adapted) = new_schema_from-Adapted arrow table vs prototype ns pr fit in
          (
            record {
              proto_schema = prototype;
              transform_tree = ns;
              dictionaries = table;
              shared = no_events;
              schema = gs;
              schema_updates_performed = 0;
            },
            rw (new_record_builder, e, made) refl,
            record {
              prototypes = pr;
              valid = vs;
              fits = fit;
              adapted = adapted;
              current = λ _. made;
            },
          )

  pub request_column-IsConsistent :
      (rb : RecordBuilderExt) (i : ℕ) (path : List ℕ)
      → IsConsistent rb
      → IsConsistent (request_column rb i path)
  unfolding request_column inc
  request_column-IsConsistent rb i path k = record {
    prototypes = k.prototypes;
    valid = k.valid;
    fits =
        remove_at-AllFit (length rb.dictionaries) rb.proto_schema rb.transform_tree i path k.fits;
    adapted = k.adapted;
    current = λ none_left. absurd (more none_left);
  }
    where
      more : (inc rb.shared).count ≡ 0 → ⊥
      more e = ground arith

  -- An update succeeds, and leaves no request.
  pub update_schema-IsConsistent :
      (rb : RecordBuilderExt)
      → IsConsistent rb
      → (rb' : RecordBuilderExt) × (update_schema arrow rb ≡ ok rb')
        × (rb'.shared.count ≡ 0)
        × IsConsistent rb'
  unfolding update_schema reset
  update_schema-IsConsistent rb k =
      let table = revert_nodes rb.transform_tree rb.dictionaries in
      let (vs, same) = revert_nodes-Kept rb.transform_tree rb.dictionaries k.valid in
      let fit : AllFit (length table) rb.proto_schema rb.transform_tree =
        subst (λ n. AllFit n rb.proto_schema rb.transform_tree) (sym same) k.fits in
      let (gs, made, adapted) =
        new_schema_from-Adapted arrow table vs rb.proto_schema rb.transform_tree k.prototypes fit in
      (
        record rb {
          dictionaries = table;
          schema = gs;
          shared = reset rb.shared;
          schema_updates_performed = rb.schema_updates_performed + 1;
        },
        rw (update_schema, made) refl,
        refl,
        record {
          prototypes = k.prototypes;
          valid = vs;
          fits = fit;
          adapted = adapted;
          current = λ _. made;
        },
      )

  pub refuse-IsConsistent :
      (rb : RecordBuilderExt)
      → IsConsistent rb
      → (rb' : RecordBuilderExt) × (refuse arrow rb ≡ ok (none, rb'))
        × (rb'.shared.count ≡ 0)
        × IsConsistent rb'
  unfolding refuse
  refuse-IsConsistent rb k =
      let (rb', e, z, k') = update_schema-IsConsistent rb k in (rb', rw e refl, z, k')
