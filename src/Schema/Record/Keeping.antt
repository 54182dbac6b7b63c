-- ===== src/Schema/Record/Keeping.antt =====
-- RevertCounters and RemoveOptional on the tree and the table of a record builder
-- (transform_node.go of pkg/otel/common/schema).
use otel_arrow_adapter.Base.{ℕ, zero, suc, ◌≡◌, refl, ap, ◌∙◌, List, [], ◌∷◌, length}
use otel_arrow_adapter.Schema.Types.{
  Metadata, DataType, plain, dictionary, struct_of, list_of, union_of, map_of, Field, field, Fields,
  no_fields, add_field,
}
use otel_arrow_adapter.Schema.Tree.{
  FieldTransform, identity_field, removed_field, dictionary_field, TransformNode, node, Nodes,
  no_nodes, add_node, Table, without_removed, or_identity,
}
use otel_arrow_adapter.Schema.NewSchema.Adapted.{Allowed, Fits, FitsType, AllFit}
use otel_arrow_adapter.Schema.NewSchema.Transforms.{AllValid}
use otel_arrow_adapter.Schema.Record.{
  revert_at, revert_all, revert_node, revert_nodes, remove_at, remove_in,
}

-- The same number of fields, all valid.
abbrev pub Kept : Table → Table → Type 0
Kept table table' = AllValid table' × (length table' ≡ length table)

revert_at-Kept : (i : ℕ) (table : Table) → AllValid table → Kept table (revert_at i table)
unfolding revert_at
revert_at-Kept i [] vs = (tt, refl)
revert_at-Kept zero (t ∷ table) (v, vs) =
    ((record { cards = v.cards; lengths = v.lengths; in_range = v.in_range }, vs), refl)
revert_at-Kept (suc i) (t ∷ table) (v, vs) =
    let (ws, e) = revert_at-Kept i table vs in ((v, ws), ap suc e)

revert_all-Kept :
    (ts : List FieldTransform) (table : Table) → AllValid table → Kept table (revert_all ts table)
unfolding revert_all
revert_all-Kept [] table vs = (vs, refl)
revert_all-Kept (dictionary_field i ∷ ts) table vs =
    let (ws, e) = revert_at-Kept i table vs in
    let (us, f) = revert_all-Kept ts (revert_at i table) ws in (us, f ∙ e)
revert_all-Kept (identity_field ∷ ts) table vs = revert_all-Kept ts table vs
revert_all-Kept (removed_field ∷ ts) table vs = revert_all-Kept ts table vs

mutual
  unfolding revert_node

  revert_node-Kept :
      (n : TransformNode) (table : Table) → AllValid table → Kept table (revert_node n table)
  revert_node-Kept (node name ts children) table vs =
      let (ws, e) = revert_all-Kept ts table vs in
      let (us, f) = revert_nodes-Kept children (revert_all ts table) ws in (us, f ∙ e)

  pub revert_nodes-Kept :
      (ns : Nodes) (table : Table) → AllValid table → Kept table (revert_nodes ns table)
  revert_nodes-Kept no_nodes table vs = (vs, refl)
  revert_nodes-Kept (add_node n ns) table vs =
      let (ws, e) = revert_node-Kept n table vs in
      let (us, f) = revert_nodes-Kept ns (revert_node n table) ws in (us, f ∙ e)

without_removed-Allowed :
    (size : ℕ) (metadata : Metadata) (ts : List FieldTransform)
    → Allowed size metadata ts
    → Allowed size metadata (or_identity (without_removed ts))
unfolding Allowed without_removed
without_removed-Allowed size metadata ts a = identity (without_removed ts) (less ts a)
  where
    less :
        (us : List FieldTransform)
        → Allowed size metadata us
        → Allowed size metadata (without_removed us)
    less [] b = tt
    less (identity_field ∷ us) b = less us b
    less (removed_field ∷ us) b = less us b.1
    less (dictionary_field i ∷ us) b = (b.0, less us b.1)

    identity :
        (us : List FieldTransform)
        → Allowed size metadata us
        → Allowed size metadata (or_identity us)
    identity [] b = tt
    identity (u ∷ us) b = b

-- Removing an option keeps the shape of the tree.
mutual
  unfolding remove_at Fits

  remove_in-Fits :
      (size : ℕ) (f : Field) (n : TransformNode) (path : List ℕ)
      → Fits size f n
      → Fits size f (remove_in n path)
  remove_in-Fits size (field name type b m) (node s ts children) [] (a, fit) =
      (without_removed-Allowed size m ts a, fit)
  remove_in-Fits size (field name type b m) (node s ts children) (i ∷ path) (a, fit) =
      (a, remove_at-FitsType size type children i path fit)

  remove_at-FitsType :
      (size : ℕ) (t : DataType) (ns : Nodes) (i : ℕ) (path : List ℕ)
      → FitsType size t ns
      → FitsType size t (remove_at ns i path)
  remove_at-FitsType size (plain p) ns i path e = rw e refl
  remove_at-FitsType size (dictionary index value) ns i path e = rw e refl
  remove_at-FitsType size (struct_of fs) ns i path fit = remove_at-AllFit size fs ns i path fit
  remove_at-FitsType size (list_of elem) no_nodes i path fit = fit
  remove_at-FitsType size (list_of elem) (add_node n ns) zero path (fit, e) =
      (remove_in-Fits size elem n path fit, e)
  remove_at-FitsType size (list_of elem) (add_node n ns) (suc i) path (fit, e) = (fit, rw e refl)
  remove_at-FitsType size (union_of mode fs codes) ns i path fit =
      remove_at-AllFit size fs ns i path fit
  remove_at-FitsType size (map_of key item) no_nodes i path fit = fit
  remove_at-FitsType size (map_of key item) (add_node k no_nodes) i path fit = absurd fit
  remove_at-FitsType size (map_of key item) (add_node k (add_node v ns)) zero path (a, b, e) =
      (remove_in-Fits size key k path a, b, e)
  remove_at-FitsType size (map_of key item) (add_node k (add_node v ns)) (suc zero) path (a, b, e) =
      (a, remove_in-Fits size item v path b, e)
  remove_at-FitsType size (map_of key item) (add_node k (add_node v ns)) (suc (suc i)) path
        (a, b, e) =
      (a, b, rw e refl)

  pub remove_at-AllFit :
      (size : ℕ) (fs : Fields) (ns : Nodes) (i : ℕ) (path : List ℕ)
      → AllFit size fs ns
      → AllFit size fs (remove_at ns i path)
  remove_at-AllFit size no_fields ns i path e = rw e refl
  remove_at-AllFit size (add_field f fs) no_nodes i path fit = fit
  remove_at-AllFit size (add_field f fs) (add_node n ns) zero path (a, b) =
      (remove_in-Fits size f n path a, b)
  remove_at-AllFit size (add_field f fs) (add_node n ns) (suc i) path (a, b) =
      (a, remove_at-AllFit size fs ns i path b)
