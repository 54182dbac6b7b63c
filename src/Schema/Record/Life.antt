-- ===== src/Schema/Record/Life.antt =====
-- How often a record builder updates its schema (UpdateSchema in builder/record.go of
-- pkg/otel/common/schema).
use otel_arrow_adapter.Base.{
  ℕ, zero, suc, ◌+◌, ◌≤◌, ◌<◌, ◌≡◌, refl, sym, ap, ◌∙◌, ◌≢◌, ◌⊎◌, inl, inr, true, false, ◌==◌,
  Option, some, List, [], ◌∷◌, ok, arith, Bool-cases, if◌then◌else◌, bind-ok, ok_injective,
}
use otel_arrow_adapter.Schema.Dictionary.{Shared, reset, inc}
use otel_arrow_adapter.Schema.Dictionary.Updates.{room}
use otel_arrow_adapter.Schema.Tree.{
  FieldTransform, identity_field, removed_field, dictionary_field, TransformNode, node, Nodes,
  no_nodes, add_node, Table,
}
use otel_arrow_adapter.Schema.NewSchema.{ArrowTypes, new_schema_from}
use otel_arrow_adapter.Schema.Record.{
  Columns, RecordBuilderExt, revert_at, revert_all, revert_node, revert_nodes, remove_at,
  request_column, is_schema_up_to_date, update_schema, refuse, new_record,
}
use otel_arrow_adapter.Schema.Record.Tables.{total_room}
use otel_arrow_adapter.Schema.Record.Passes.{each-Passed}
use otel_arrow_adapter.Schema.Record.Steps.{IsConsistent, request_column-IsConsistent, is_zero}
use otel_arrow_adapter.Schema.Record.Attempts.{
  Recorded, recorded, refused, returned-Recorded, new_record-looks, new_record-refuses,
}

-- The optional fields that are still removed.
unfoldable pub removed_count : List FieldTransform → ℕ
removed_count [] = 0
removed_count (removed_field ∷ ts) = suc (removed_count ts)
removed_count (identity_field ∷ ts) = removed_count ts
removed_count (dictionary_field i ∷ ts) = removed_count ts

unfoldable mutual
  unfolding removed_count

  pub removed_in : TransformNode → ℕ
  removed_in (node name ts children) = removed_count ts + total_removed children

  pub total_removed : Nodes → ℕ
  total_removed no_nodes = 0
  total_removed (add_node n ns) = removed_in n + total_removed ns

-- An update is pending.
unfoldable pub pending : RecordBuilderExt → ℕ
pending rb = if rb.shared.count == 0 then 0 else 1

revert_at-total_room : (i : ℕ) (table : Table) → total_room (revert_at i table) ≡ total_room table
unfolding revert_at total_room room
revert_at-total_room i [] = refl
revert_at-total_room zero (t ∷ table) = refl
revert_at-total_room (suc i) (t ∷ table) = ap (λ n. room t + n) (revert_at-total_room i table)

revert_all-total_room :
    (ts : List FieldTransform) (table : Table) → total_room (revert_all ts table) ≡ total_room table
unfolding revert_all
revert_all-total_room [] table = refl
revert_all-total_room (dictionary_field i ∷ ts) table =
    revert_all-total_room ts (revert_at i table) ∙ revert_at-total_room i table
revert_all-total_room (identity_field ∷ ts) table = revert_all-total_room ts table
revert_all-total_room (removed_field ∷ ts) table = revert_all-total_room ts table

mutual
  unfolding revert_node

  revert_node-total_room :
      (n : TransformNode) (table : Table) → total_room (revert_node n table) ≡ total_room table
  revert_node-total_room (node name ts children) table =
      revert_nodes-total_room children (revert_all ts table) ∙ revert_all-total_room ts table

  revert_nodes-total_room :
      (ns : Nodes) (table : Table) → total_room (revert_nodes ns table) ≡ total_room table
  revert_nodes-total_room no_nodes table = refl
  revert_nodes-total_room (add_node n ns) table =
      revert_nodes-total_room ns (revert_node n table) ∙ revert_node-total_room n table

module _ (arrow : ArrowTypes) where
  -- A step of a record builder. A request comes for a column that the schema lacks: it removes an
  -- option, or an earlier request has not been followed by an update yet.
  pub data BuilderStep : RecordBuilderExt → RecordBuilderExt → Type 0 where
    requests :
        {rb : RecordBuilderExt} (i : ℕ) (path : List ℕ)
        → (total_removed (remove_at rb.transform_tree i path) < total_removed rb.transform_tree)
          ⊎ ((rb.shared.count ≢ 0)
              × (total_removed (remove_at rb.transform_tree i path)
                  ≤ total_removed rb.transform_tree))
        → BuilderStep rb (request_column rb i path)
    records :
        {rb rb' : RecordBuilderExt} (cs : Columns) (o : Option Columns)
        → new_record arrow rb cs ≡ ok (o, rb')
        → BuilderStep rb rb'

  pub data BuilderSteps : RecordBuilderExt → RecordBuilderExt → Type 0 where
    no_step : {rb : RecordBuilderExt} → BuilderSteps rb rb
    then_step :
        {rb rb1 rb2 : RecordBuilderExt}
        → BuilderSteps rb rb1
        → BuilderStep rb1 rb2
        → BuilderSteps rb rb2

  Recorded-IsConsistent :
      (rb : RecordBuilderExt) (cs : Columns) (r : Option Columns × RecordBuilderExt)
      → Recorded arrow rb cs r
      → IsConsistent arrow r.1
  Recorded-IsConsistent rb cs r (recorded _ _ _ _ _ k) = k
  Recorded-IsConsistent rb cs r (refused _ _ k) = k

  pub BuilderStep-IsConsistent :
      (rb rb' : RecordBuilderExt)
      → BuilderStep rb rb'
      → IsConsistent arrow rb
      → IsConsistent arrow rb'
  BuilderStep-IsConsistent rb rb' (requests i path _) k =
      request_column-IsConsistent arrow rb i path k
  BuilderStep-IsConsistent rb rb' (records cs o e) k =
      Recorded-IsConsistent rb cs (o, rb') (returned-Recorded arrow rb cs (o, rb') k e)

  -- Whatever columns are requested and recorded, the record builder stays consistent: its schema is
  -- adapted from the prototype, and it is the schema of the transformation tree whenever no update
  -- is pending.
  pub steps-IsConsistent :
      (rb rb' : RecordBuilderExt)
      → BuilderSteps rb rb'
      → IsConsistent arrow rb
      → IsConsistent arrow rb'
  steps-IsConsistent rb rb' no_step k = k
  steps-IsConsistent rb rb' (then_step {rb1 = rb1} before last) k =
      BuilderStep-IsConsistent rb1 rb' last (steps-IsConsistent rb rb1 before k)

  -- The updates so far, with those that are still possible.
  abbrev spent : RecordBuilderExt → ℕ
  spent rb =
      rb.schema_updates_performed
      + pending rb
      + total_removed rb.transform_tree
      + total_room rb.dictionaries

  update_schema-spent :
      (rb rb' : RecordBuilderExt) (base : ℕ)
      → update_schema arrow rb ≡ ok rb'
      → rb.schema_updates_performed
          + 1
          + total_removed rb.transform_tree
          + total_room rb.dictionaries
        ≤ base
      → spent rb' ≤ base
  unfolding update_schema pending reset
  update_schema-spent rb rb' base e le =
      let (gs, made, is_rb) =
        bind-ok
          (new_schema_from arrow (revert_nodes rb.transform_tree rb.dictionaries) rb.proto_schema
            rb.transform_tree)
          _ rb' e in
      rw (← ok_injective is_rb)
        (omega (arith, le, revert_nodes-total_room rb.transform_tree rb.dictionaries))

  refuse-spent :
      (rb rb' : RecordBuilderExt) (o : Option Columns) (base : ℕ)
      → refuse arrow rb ≡ ok (o, rb')
      → rb.schema_updates_performed
          + 1
          + total_removed rb.transform_tree
          + total_room rb.dictionaries
        ≤ base
      → spent rb' ≤ base
  unfolding refuse
  refuse-spent rb rb' o base e le =
      let (rb1, updated, is_r) = bind-ok (update_schema arrow rb) _ (o, rb') e in
      let is_rb : rb1 ≡ rb' = ap (λ r. r.1) (ok_injective is_r) in
      rw (← is_rb) (update_schema-spent rb rb1 base updated le)

  -- After the columns have been looked at.
  observed-spent :
      (rb rb' : RecordBuilderExt) (o : Option Columns) (cs : Columns) (table : Table) (s : Shared)
      → s.count + total_room table ≤ total_room rb.dictionaries
      → (if is_schema_up_to_date (record rb { dictionaries = table; shared = s })
          then ok (some cs, record rb { dictionaries = table; shared = s })
          else refuse arrow (record rb { dictionaries = table; shared = s }))
        ≡ ok (o, rb')
      → spent rb'
        ≤ rb.schema_updates_performed + total_removed rb.transform_tree + total_room rb.dictionaries
  unfolding is_schema_up_to_date pending
  observed-spent rb rb' o cs table s le e = elim (Bool-cases (s.count == 0)) [
    | inl quiet ↦
        let is_r : (some cs, record rb { dictionaries = table; shared = s }) ≡ (o, rb') =
          ok_injective (sym (rw quiet refl) ∙ e) in
        let is_rb : record rb { dictionaries = table; shared = s } ≡ rb' = ap (λ r. r.1) is_r in
        rw (← is_rb) (still quiet)
    | inr asked ↦
        refuse-spent (record rb { dictionaries = table; shared = s }) rb' o _
          (sym (rw asked refl) ∙ e) (more asked)
  ]
    where
      still :
          (s.count == 0) ≡ true
          → spent (record rb { dictionaries = table; shared = s })
            ≤ rb.schema_updates_performed
              + total_removed rb.transform_tree
              + total_room rb.dictionaries
      still quiet = rw quiet (omega (arith, le))

      more :
          (s.count == 0) ≡ false
          → rb.schema_updates_performed + 1 + total_removed rb.transform_tree + total_room table
            ≤ rb.schema_updates_performed
              + total_removed rb.transform_tree
              + total_room rb.dictionaries
      more asked = ground arith

  step-spent :
      (rb rb' : RecordBuilderExt)
      → BuilderStep rb rb'
      → IsConsistent arrow rb
      → spent rb' ≤ spent rb
  unfolding request_column pending inc
  step-spent rb rb' (requests i path (inl less)) k = ground arith
  step-spent rb rb' (requests i path (inr (more, le))) k = ground arith
  step-spent rb rb' (records cs o e) k = elim (Bool-cases (rb.shared.count == 0)) [
    | inl quiet ↦
        let (st, seen, after) = new_record-looks arrow rb cs (o, rb') quiet e in
        let p = each-Passed arrow rb.schema cs rb.dictionaries rb.shared st k.valid seen in
        omega (
          arith,
          observed-spent rb rb' o cs st.0 st.1
              (omega (arith, p.room_le, is_zero rb.shared.count quiet)) after,
        )
    | inr asked ↦
        rw asked
          (refuse-spent rb rb' o _ (sym (new_record-refuses arrow rb cs asked) ∙ e) (omega arith))
  ]

  -- The schema is updated at most as often as the initial tree has optional fields and the initial
  -- dictionary fields have index types from their current one on.
  pub updates-bounded :
      (rb rb' : RecordBuilderExt)
      → BuilderSteps rb rb'
      → IsConsistent arrow rb
      → rb'.schema_updates_performed
        ≤ rb.schema_updates_performed
          + pending rb
          + total_removed rb.transform_tree
          + total_room rb.dictionaries
  updates-bounded rb rb' steps k = omega (arith, bounded rb rb' steps k)
    where
      bounded :
          (rb rb' : RecordBuilderExt)
          → BuilderSteps rb rb'
          → IsConsistent arrow rb
          → spent rb' ≤ spent rb
      bounded rb rb' no_step k = omega arith
      bounded rb rb' (then_step {rb1 = rb1} before last) k = omega (
        arith,
        bounded rb rb1 before k,
        step-spent rb1 rb' last (steps-IsConsistent rb rb1 before k),
      )
