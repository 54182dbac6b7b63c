-- ===== src/Schema/NewSchema/Adapts.antt =====
-- Every schema that a fitting tree makes is adapted from its prototype (schema.go of
-- pkg/otel/common/schema).
use otel_arrow_adapter.Base.{
  ℕ, ◌≤◌, ◌≡◌, refl, sym, ◌∙◌, ◌⊎◌, inl, inr, Bool, true, false, ◌||◌, Option, none, some, List, [],
  ◌∷◌, length, Result, ok, err, panic, ◌>>=◌, arith, Str,
}
use mathlib.Core.Bool.{true≢false}
use otel_arrow_adapter.Schema.Types.{
  Metadata, DataType, plain, dictionary, struct_of, list_of, union_of, map_of, Field, field, Fields,
  no_fields, add_field, type_of,
}
use otel_arrow_adapter.Schema.Tree.{TransformNode, node, Nodes, no_nodes, add_node, Table}
use otel_arrow_adapter.Schema.NewSchema.{
  ArrowTypes, Child, of_entry, with_type, value_type, new_fields, new_variants, new_type,
  new_field_from, each_child, new_schema_from,
}
use otel_arrow_adapter.Schema.NewSchema.Adapted.{
  strip, is_removable, loses_entry, count, IsPrototype, IsPrototypeType, ArePrototypes, Fits,
  FitsType, AllFit, IsDictionaryOf, Adapted, AdaptedType, AdaptedFields, AdaptedVariants, Returns,
  EachReturns,
}
use otel_arrow_adapter.Schema.NewSchema.Transforms.{
  AllValid, Passes, ShapeOf, transform_all-Passes, strip-clean_metadata, clean_metadata-clean,
}

or-true : (b : Bool) → (b || true) ≡ true
or-true true = refl
or-true false = refl

module _ (arrow : ArrowTypes) where
  -- The two ways in which a call returns.
  returned :
      (f : Field) (r : Result ⊥ (Option Field))
      → Returns arrow f r
      → ((r ≡ ok none) × (is_removable f ≡ true))
        ⊎ ((g : Field) × (r ≡ ok (some g)) × Adapted arrow f g)
  unfolding Returns
  returned f (ok none) h = inl (refl, h)
  returned f (ok (some g)) h = inr (g, refl, h)
  returned f (err e) h = absurd h
  returned f panic h = absurd h

  Adapted-type :
      (name : Str) (t : DataType) (nullable : Bool) (metadata : Metadata) (g : Field)
      → Adapted arrow (field name t nullable metadata) g
      → AdaptedType arrow t (type_of g)
  unfolding Adapted
  Adapted-type name t nullable metadata (field n u b m) (_, _, _, _, _, a) = a

  new_fields-Adapted :
      (fs : Fields) (cs : List Child)
      → EachReturns arrow fs cs
      → (gs : Fields) × (new_fields fs cs ≡ ok gs) × AdaptedFields arrow fs gs
  unfolding EachReturns new_fields Adapted
  new_fields-Adapted no_fields cs h = (no_fields, refl, refl)
  new_fields-Adapted (add_field f fs) [] h = absurd h
  new_fields-Adapted (add_field f fs) (c ∷ cs) (h, hs) =
      let (gs, made, adapted) = new_fields-Adapted fs cs hs in
      elim (returned f (c f) h) [
        | inl (e, removable) ↦ (gs, rw (e, made) refl, inl (removable, adapted))
        | inr (g, e, fit) ↦ (add_field g gs, rw (e, made) refl, inr (g, gs, refl, fit, adapted))
      ]

  new_variants-Adapted :
      (fs : Fields) (codes : List ℕ) (cs : List Child)
      → count fs ≤ length codes
      → EachReturns arrow fs cs
      → (gs : Fields) × (kept : List ℕ) × (new_variants fs codes cs ≡ ok (gs, kept))
        × AdaptedVariants arrow fs codes gs kept
  unfolding EachReturns new_variants Adapted
  new_variants-Adapted no_fields codes cs k h = (no_fields, [], refl, (refl, refl))
  new_variants-Adapted (add_field f fs) codes [] k h = absurd h
  new_variants-Adapted (add_field f fs) [] (c ∷ cs) k h = ground arith
  new_variants-Adapted (add_field f fs) (code ∷ codes) (c ∷ cs) k (h, hs) =
      let (gs, kept, made, adapted) = new_variants-Adapted fs codes cs (omega arith) hs in
      elim (returned f (c f) h) [
        | inl (e, removable) ↦ (gs, kept, rw (e, made) refl, inl (removable, adapted))
        | inr (g, e, fit) ↦ (
          add_field g gs,
          code ∷ kept,
          rw (e, made) refl,
          inr (g, gs, kept, refl, refl, fit, adapted),
        )
      ]

  -- What a call on a type returns.
  abbrev TypeReturns : DataType → Result ⊥ (Option DataType) → Type 0
  TypeReturns t (ok none) = loses_entry t ≡ true
  TypeReturns t (ok (some u)) = AdaptedType arrow t u
  TypeReturns t _ = ⊥

  module _ (table : Table) (valid : AllValid table) where
    abbrev IsRight : TransformNode → Type 0
    IsRight n =
        (f : Field)
        → IsPrototype f
        → Fits (length table) f n
        → Returns arrow f (new_field_from arrow table n f)

    abbrev AreRight : Nodes → Type 0
    AreRight no_nodes = Unit
    AreRight (add_node n ns) = IsRight n × AreRight ns

    each_child-Returns :
        (fs : Fields) (ns : Nodes)
        → AreRight ns
        → ArePrototypes fs
        → AllFit (length table) fs ns
        → EachReturns arrow fs (each_child arrow table ns)
    unfolding EachReturns new_field_from IsPrototype Fits
    each_child-Returns no_fields ns r p a = tt
    each_child-Returns (add_field f fs) no_nodes r p a = absurd a
    each_child-Returns (add_field f fs) (add_node n ns) (r, rs) (p, ps) (a, more) =
        (r f p a, each_child-Returns fs ns rs ps more)

    new_type-Returns :
        (t : DataType) (ns : Nodes)
        → AreRight ns
        → IsPrototypeType t
        → FitsType (length table) t ns
        → value_type t ≡ t
        → TypeReturns t (new_type arrow t (each_child arrow table ns))
    unfolding IsPrototype Fits new_type new_field_from Adapted
    new_type-Returns (plain p) ns r pr fit same = inl refl
    new_type-Returns (dictionary index value) ns r pr fit same = inr (index, refl)
    new_type-Returns (struct_of fs) ns r pr fit same =
        let (gs, made, adapted) =
          new_fields-Adapted fs (each_child arrow table ns) (each_child-Returns fs ns r pr fit) in
        rw made (inl (gs, refl, adapted))
    new_type-Returns (list_of (field name t nullable metadata)) no_nodes r pr fit same = absurd fit
    new_type-Returns (list_of (field name t nullable metadata)) (add_node n ns) (r, rs) (stays, pr)
          (fit, _) same =
        elim (returned (field name t nullable metadata)
          (new_field_from arrow table n (field name t nullable metadata))
          (r (field name t nullable metadata) pr fit)) [
            | inl (e, removable) ↦ absurd (true≢false (sym removable ∙ stays))
            | inr (g, e, adapted) ↦
                rw e (inl (type_of g, refl, Adapted-type name t nullable metadata g adapted))
          ]
    new_type-Returns (union_of mode fs codes) ns r (enough, pr) fit same =
        let (gs, kept, made, adapted) =
          new_variants-Adapted fs codes (each_child arrow table ns) enough
            (each_child-Returns fs ns r pr fit) in
        rw made (inl (gs, kept, refl, adapted))
    new_type-Returns (map_of key item) no_nodes r pr fit same = absurd fit
    new_type-Returns (map_of key item) (add_node k no_nodes) r pr fit same = absurd fit
    new_type-Returns (map_of key item) (add_node k (add_node v ns)) (rk, (rv, rs)) (pk, pv)
          (fk, fv, _) same =
        entry-Returns (new_field_from arrow table k key) (new_field_from arrow table v item)
          (returned key _ (rk key pk fk)) (returned item _ (rv item pv fv))
      where
        entry-Returns :
            (k v : Result ⊥ (Option Field))
            → ((k ≡ ok none) × (is_removable key ≡ true))
              ⊎ ((g : Field) × (k ≡ ok (some g)) × Adapted arrow key g)
            → ((v ≡ ok none) × (is_removable item ≡ true))
              ⊎ ((g : Field) × (v ≡ ok (some g)) × Adapted arrow item g)
            → TypeReturns
                (map_of key item)
                (k >>= λ new_key. (v >>= λ new_item. ok (of_entry arrow new_key new_item)))
        entry-Returns k v (inl (e, gone)) (inl (f, _)) = rw (e, f, gone) refl
        entry-Returns k v (inl (e, gone)) (inr (h, f, _)) = rw (e, f, gone) refl
        entry-Returns k v (inr (g, e, _)) (inl (f, gone)) =
            rw (e, f, gone) (or-true (is_removable key))
        entry-Returns k v (inr (g, e, a)) (inr (h, f, b)) = rw (e, f) (inl (g, h, refl, a, b))

    from_dictionary : (t u : DataType) → IsDictionaryOf (value_type t) u → AdaptedType arrow t u
    unfolding Adapted
    from_dictionary (plain p) u d = inr d
    from_dictionary (dictionary index value) u d = inr d
    from_dictionary (struct_of fs) u d = inr d
    from_dictionary (list_of (field name t nullable metadata)) u d = inr d
    from_dictionary (union_of mode fs codes) u d = inr d
    from_dictionary (map_of key item) u d = inr d

    -- Of a dictionary, the values are plain.
    value_type-Returns :
        (t : DataType) (ns : Nodes)
        → AreRight ns
        → IsPrototypeType t
        → FitsType (length table) t ns
        → TypeReturns t (new_type arrow (value_type t) (each_child arrow table ns))
    unfolding IsPrototype Adapted new_type
    value_type-Returns (dictionary index value) ns r (p, e) fit = rw e (inl refl)
    value_type-Returns (plain p) ns r pr fit = new_type-Returns (plain p) ns r pr fit refl
    value_type-Returns (struct_of fs) ns r pr fit = new_type-Returns (struct_of fs) ns r pr fit refl
    value_type-Returns (list_of elem) ns r pr fit = new_type-Returns (list_of elem) ns r pr fit refl
    value_type-Returns (union_of mode fs codes) ns r pr fit =
        new_type-Returns (union_of mode fs codes) ns r pr fit refl
    value_type-Returns (map_of key item) ns r pr fit =
        new_type-Returns (map_of key item) ns r pr fit refl

    value_type-value_type :
        (t : DataType) → IsPrototypeType t → value_type (value_type t) ≡ value_type t
    unfolding IsPrototype
    value_type-value_type (plain p) pr = refl
    value_type-value_type (dictionary index value) (p, e) = rw e refl
    value_type-value_type (struct_of fs) pr = refl
    value_type-value_type (list_of elem) pr = refl
    value_type-value_type (union_of mode fs codes) pr = refl
    value_type-value_type (map_of key item) pr = refl

    -- The field with the type made for it.
    with_type-Returns :
        (name : Str) (t : DataType) (nullable : Bool) (metadata : Metadata) (u : DataType)
        (m : Metadata) (r : Result ⊥ (Option DataType))
        → strip m ≡ strip metadata
        → TypeReturns t r
        → Returns arrow
            (field name t nullable metadata)
            (r >>= λ v. ok (with_type (field name u nullable m) v))
    unfolding Returns Adapted
    with_type-Returns name t nullable metadata u m (ok none) same h = ground arith
    with_type-Returns name t nullable metadata u m (ok (some v)) same h =
        let (a, b) = clean_metadata-clean m in (refl, refl, strip-clean_metadata m ∙ same, a, b, h)
    with_type-Returns name t nullable metadata u m (err e) same h = h
    with_type-Returns name t nullable metadata u m panic same h = h

    passed-Returns :
        (name : Str) (t : DataType) (nullable : Bool) (metadata : Metadata) (ns : Nodes)
        (r : Result ⊥ (Option Field))
        → AreRight ns
        → IsPrototypeType t
        → FitsType (length table) t ns
        → Passes name nullable metadata (value_type t) r
        → Returns arrow (field name t nullable metadata) (
            r >>= λ o. elim o [
              | none ↦ ok none
              | some g ↦
                  new_type arrow (type_of g) (each_child arrow table ns) >>= λ v. ok (with_type g v)
            ])
    unfolding Passes new_field_from Returns new_type
    passed-Returns name t nullable metadata ns (ok none) right pr fit p = ground arith
    passed-Returns name t nullable metadata ns (ok (some (field n u b m))) right pr fit
          (e, f, same, inl plain_type) =
        rw (e, f, plain_type)
          (with_type-Returns name t nullable metadata (value_type t) m _ same
            (value_type-Returns t ns right pr fit))
    passed-Returns name t nullable metadata ns (ok (some (field n u b m))) right pr fit
          (e, f, same, inr (index, made)) =
        rw (e, f, made)
          (with_type-Returns name t nullable metadata (dictionary index (value_type t)) m
            (ok (some (dictionary index (value_type t)))) same
            (from_dictionary t (dictionary index (value_type t)) (index, refl)))
    passed-Returns name t nullable metadata ns (err e) right pr fit p = absurd p
    passed-Returns name t nullable metadata ns panic right pr fit p = absurd p

    start : (t : DataType) → ShapeOf (value_type t) t
    start (plain p) = inl refl
    start (dictionary index value) = inr (index, refl)
    start (struct_of fs) = inl refl
    start (list_of elem) = inl refl
    start (union_of mode fs codes) = inl refl
    start (map_of key item) = inl refl

    mutual
      unfolding new_field_from IsPrototype Fits

      new_field_from-Right : (n : TransformNode) → IsRight n
      new_field_from-Right (node s ts children) (field name t nullable metadata) pr (allowed, fit) =
          passed-Returns name t nullable metadata children _ (each_child-Right children) pr fit (
            transform_all-Passes table ts name t nullable metadata metadata (value_type t) valid
              allowed (value_type-value_type t pr) refl (start t))

      each_child-Right : (ns : Nodes) → AreRight ns
      each_child-Right no_nodes = tt
      each_child-Right (add_node n ns) = (new_field_from-Right n, each_child-Right ns)

    -- Over a table of valid dictionary fields, a tree that fits a prototype makes a schema of it without
    -- a panic, and that schema is adapted from the prototype: it has the prototype's fields in their
    -- order, less some removable ones, with the same names, nullability and other metadata, without
    -- the keys of transformations, and the same types up to dictionaries.
    pub new_schema_from-Adapted :
        (fs : Fields) (ns : Nodes)
        → ArePrototypes fs
        → AllFit (length table) fs ns
        → (gs : Fields) × (new_schema_from arrow table fs ns ≡ ok gs) × AdaptedFields arrow fs gs
    unfolding new_schema_from
    new_schema_from-Adapted fs ns pr fit =
        new_fields-Adapted fs (each_child arrow table ns)
          (each_child-Returns fs ns (each_child-Right ns) pr fit)
