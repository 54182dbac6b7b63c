-- ===== src/Schema/NewSchema/Trees.antt =====
-- The tree that NewTransformTreeFrom makes (transform_node.go of pkg/otel/common/schema).
use otel_arrow_adapter.Base.{
  ℕ, ◌≤◌, ◌<◌, ◌≡◌, refl, inl, inr, Option, none, some, List, [], ◌∷◌, ◌++◌, length, length-append,
  ok, ◌>>=◌, arith, Str, Option-cases, Bool-cases, str_eq,
}
use otel_arrow_adapter.Schema.Types.{
  optional, dictionary_key, Metadata, DataType, plain, dictionary, struct_of, list_of, union_of,
  map_of, Field, field, Fields, no_fields, add_field, find_key,
}
use otel_arrow_adapter.Schema.Dictionary.{
  Dictionary, DictionaryField, new_dictionary_field, new_dictionary_from,
}
use otel_arrow_adapter.Schema.Dictionary.Updates.{IsValid, Starts, new_dictionary_field-Starts}
use otel_arrow_adapter.Schema.Tree.{
  FieldTransform, identity_field, removed_field, dictionary_field, TransformNode, node, Nodes,
  no_nodes, add_node, Table, Made, join, local_config, width_8, width_16, add_dictionary,
  own_dictionary, optional_transforms, or_identity, new_transform_node_from, new_children,
  new_nodes, new_transform_tree_from,
}
use otel_arrow_adapter.Schema.NewSchema.Adapted.{has_optional, Allowed, Fits, FitsType, AllFit}
use otel_arrow_adapter.Schema.NewSchema.Transforms.{AllValid}

-- A call that adds to the table and returns what the property says for the new size.
pub data Grows {A : Type 0} (P : ℕ → A → Type 0) (table : Table) (r : Made A) : Type 0 where
  grown :
      (a : A) (table' : Table)
      → r ≡ ok (a, table')
      → AllValid table'
      → length table ≤ length table'
      → P (length table') a
      → Grows P table r

-- A configuration of the dictionaries.
abbrev pub IsConfig : Dictionary → Type 0
IsConfig c = (c.min_card ≤ c.max_card) × (c.max_card < 18446744073709551616)

pub Allowed-append :
    (size : ℕ) (metadata : Metadata) (ts us : List FieldTransform)
    → Allowed size metadata ts
    → Allowed size metadata us
    → Allowed size metadata (ts ++ us)
unfolding Allowed
Allowed-append size metadata [] us a b = b
Allowed-append size metadata (identity_field ∷ ts) us a b = Allowed-append size metadata ts us a b
Allowed-append size metadata (removed_field ∷ ts) us a b =
    (a.0, Allowed-append size metadata ts us a.1 b)
Allowed-append size metadata (dictionary_field i ∷ ts) us a b =
    (a.0, Allowed-append size metadata ts us a.1 b)

Allowed-le :
    (size size' : ℕ) (metadata : Metadata) (ts : List FieldTransform)
    → size ≤ size'
    → Allowed size metadata ts
    → Allowed size' metadata ts
unfolding Allowed
Allowed-le size size' metadata [] h a = a
Allowed-le size size' metadata (identity_field ∷ ts) h a = Allowed-le size size' metadata ts h a
Allowed-le size size' metadata (removed_field ∷ ts) h a =
    (a.0, Allowed-le size size' metadata ts h a.1)
Allowed-le size size' metadata (dictionary_field i ∷ ts) h a =
    (omega arith, Allowed-le size size' metadata ts h a.1)

-- A larger table serves as well.
mutual
  unfolding Fits

  Fits-le :
      (size size' : ℕ)
      → size ≤ size'
      → (n : TransformNode) (f : Field) → Fits size f n
      → Fits size' f n
  Fits-le size size' h (node s ts children) (field name type nullable metadata) (a, b) =
      (Allowed-le size size' metadata ts h a, FitsType-le size size' h children type b)

  FitsType-le :
      (size size' : ℕ)
      → size ≤ size'
      → (ns : Nodes) (t : DataType) → FitsType size t ns
      → FitsType size' t ns
  FitsType-le size size' h ns (plain p) a = a
  FitsType-le size size' h ns (dictionary index value) a = a
  FitsType-le size size' h ns (struct_of fs) a = AllFit-le size size' h ns fs a
  FitsType-le size size' h no_nodes (list_of elem) a = a
  FitsType-le size size' h (add_node n ns) (list_of elem) (a, e) =
      (Fits-le size size' h n elem a, e)
  FitsType-le size size' h ns (union_of mode fs codes) a = AllFit-le size size' h ns fs a
  FitsType-le size size' h no_nodes (map_of key item) a = a
  FitsType-le size size' h (add_node k no_nodes) (map_of key item) a = a
  FitsType-le size size' h (add_node k (add_node v ns)) (map_of key item) (a, b, e) =
      (Fits-le size size' h k key a, Fits-le size size' h v item b, e)

  AllFit-le :
      (size size' : ℕ)
      → size ≤ size'
      → (ns : Nodes) (fs : Fields) → AllFit size fs ns
      → AllFit size' fs ns
  AllFit-le size size' h ns no_fields a = a
  AllFit-le size size' h no_nodes (add_field f fs) a = a
  AllFit-le size size' h (add_node n ns) (add_field f fs) (a, b) =
      (Fits-le size size' h n f a, AllFit-le size size' h ns fs b)

AllValid-append :
    (table : Table) (t : DictionaryField) → AllValid table → IsValid t → AllValid (table ++ t ∷ [])
AllValid-append [] t vs v = (v, tt)
AllValid-append (s ∷ table) t (w, vs) v = (w, AllValid-append table t vs v)

-- One call after another.
pub bind-Grows :
    {A B : Type 0} (P : ℕ → A → Type 0) (Q : ℕ → B → Type 0) (table : Table) (r : Made A)
    (f : A × Table → Made B)
    → Grows P table r
    → ((a : A) (table' : Table)
        → AllValid table'
        → length table ≤ length table'
        → P (length table') a
        → Grows Q table' (f (a, table')))
    → Grows Q table (r >>= f)
bind-Grows P Q table r f (grown a table' e vs le p) next = go (next a table' vs le p)
  where
    go : Grows Q table' (f (a, table')) → Grows Q table (r >>= f)
    go (grown b table'' e' vs' le' q) = grown b table'' (rw (e, e') refl) vs' (omega arith) q

-- The transformations before the children's.
own-Allowed :
    (size : ℕ) (metadata : Metadata) (ts : List FieldTransform)
    → Allowed size metadata ts
    → Allowed size metadata (or_identity (optional_transforms metadata ++ ts))
unfolding Allowed
own-Allowed size metadata ts a = by_key (find_key optional metadata) refl
  where
    otherwise :
        (us : List FieldTransform)
        → Allowed size metadata us
        → Allowed size metadata (or_identity us)
    otherwise [] b = tt
    otherwise (u ∷ us) b = b

    by_key :
        (o : Option Str)
        → find_key optional metadata ≡ o
        → Allowed size metadata (
            or_identity (
              elim o as (λ x. List FieldTransform) [ none ↦ [] | some v ↦ removed_field ∷ [] ]
              ++ ts))
    by_key none e = otherwise ts a
    by_key (some v) e = (rw (has_optional, e) refl, a)

module _ (itoa : ℕ → Str) where
  add_dictionary-Grows :
      (c : Dictionary) (path : Str) (metadata : Metadata) (table : Table)
      → IsConfig c
      → AllValid table
      → Grows (λ size ts. Allowed size metadata ts) table (add_dictionary itoa (some c) path table)
  unfolding add_dictionary Allowed
  add_dictionary-Grows c path metadata table (le, lt) vs =
      made (new_dictionary_field path (itoa (length table)) (some c)) refl
        (new_dictionary_field-Starts path (itoa (length table)) c le lt)
    where
      made :
          (o : Option DictionaryField)
          → new_dictionary_field path (itoa (length table)) (some c) ≡ o
          → Starts c o
          → Grows
              (λ size ts. Allowed size metadata ts)
              table
              (add_dictionary itoa (some c) path table)
      made none e s = absurd s
      made (some t) e (v, _) =
          let longer = length-append table (t ∷ []) in
          grown (dictionary_field (length table) ∷ []) (table ++ t ∷ [])
            (rw (add_dictionary, e) refl) (AllValid-append table t vs v) (omega (arith, longer))
            (omega (arith, longer), tt)

  local_config-some :
      (c : Dictionary) (width : Str)
      → IsConfig c
      → (d : Dictionary) × (local_config (some c) width ≡ ok (some d)) × IsConfig d
  unfolding local_config
  local_config-some c width h = elim (Bool-cases (str_eq width width_8)) [
    | inl e ↦ (new_dictionary_from 255 c, rw e refl, ground arith)
    | inr e ↦ elim (Bool-cases (str_eq width width_16)) [
      | inl f ↦ (new_dictionary_from 65535 c, rw (e, f) refl, ground arith)
      | inr f ↦ (c, rw (e, f) refl, h)
    ]
  ]

  own_dictionary-Grows :
      (c : Dictionary) (path : Str) (metadata : Metadata) (table : Table)
      → IsConfig c
      → AllValid table
      → Grows
          (λ size ts. Allowed size metadata ts)
          table
          (own_dictionary itoa (some c) path metadata table)
  unfolding own_dictionary Allowed
  own_dictionary-Grows c path metadata table h vs =
      elim (Option-cases (find_key dictionary_key metadata)) [
        | inl e ↦ grown [] table (rw (own_dictionary, e) refl) vs (omega arith) tt
        | inr (width, e) ↦
            let (d, known, right) = local_config-some c width h in
            rw (own_dictionary, e, known) (add_dictionary-Grows d path metadata table right vs)
      ]

  abbrev Below : DataType → Metadata → ℕ → List FieldTransform × Nodes → Type 0
  Below type metadata size below = Allowed size metadata below.0 × FitsType size type below.1

  module _ (c : Dictionary) (config : IsConfig c) where
    mutual
      unfolding new_transform_node_from Fits Allowed

      new_transform_node_from-Grows :
          (f : Field) (path : Str) (table : Table)
          → AllValid table
          → Grows
              (λ size n. Fits size f n)
              table
              (new_transform_node_from itoa (some c) path f table)
      new_transform_node_from-Grows (field name type nullable metadata) path table vs =
          bind-Grows _ _ table _ _
            (own_dictionary-Grows c (join path name) metadata table config vs)
            (λ ts t1 vs1 _ allowed.
              bind-Grows _ _ t1 _ _ (new_children-Grows type metadata (join path name) t1 vs1)
                (λ below t2 vs2 le fit.
                  grown
                    (node name (or_identity (optional_transforms metadata ++ ts) ++ below.0)
                      below.1)
                    t2 refl vs2 (omega arith)
                    (
                      Allowed-append (length t2) metadata
                          (or_identity (optional_transforms metadata ++ ts)) below.0
                          (own-Allowed (length t2) metadata ts
                            (Allowed-le (length t1) (length t2) metadata ts le allowed))
                          fit.0,
                      fit.1,
                    )))

      new_children-Grows :
          (type : DataType) (metadata : Metadata) (path : Str) (table : Table)
          → AllValid table
          → Grows (Below type metadata) table (new_children itoa (some c) path type table)
      new_children-Grows (plain p) metadata path table vs =
          grown ([], no_nodes) table refl vs (omega arith) (tt, refl)
      new_children-Grows (dictionary index value) metadata path table vs =
          bind-Grows _ _ table _ _ (add_dictionary-Grows c path metadata table config vs)
            (λ ts table' vs' _ allowed.
              grown (ts, no_nodes) table' refl vs' (omega arith) (allowed, refl))
      new_children-Grows (struct_of fs) metadata path table vs =
          bind-Grows _ _ table _ _ (new_nodes-Grows fs path table vs)
            (λ ns table' vs' _ fit. grown ([], ns) table' refl vs' (omega arith) (tt, fit))
      new_children-Grows (list_of elem) metadata path table vs =
          bind-Grows _ _ table _ _ (new_transform_node_from-Grows elem path table vs)
            (λ n table' vs' _ fit.
              grown ([], add_node n no_nodes) table' refl vs' (omega arith) (tt, (fit, refl)))
      new_children-Grows (union_of mode fs codes) metadata path table vs =
          bind-Grows _ _ table _ _ (new_nodes-Grows fs path table vs)
            (λ ns table' vs' _ fit. grown ([], ns) table' refl vs' (omega arith) (tt, fit))
      new_children-Grows (map_of key item) metadata path table vs =
          bind-Grows _ _ table _ _ (new_transform_node_from-Grows key path table vs)
            (λ k t1 vs1 _ fit.
              bind-Grows _ _ t1 _ _ (new_transform_node_from-Grows item path t1 vs1)
                (λ v t2 vs2 le fit2.
                  grown ([], add_node k (add_node v no_nodes)) t2 refl vs2 (omega arith)
                    (tt, (Fits-le (length t1) (length t2) le k key fit, fit2, refl))))

      new_nodes-Grows :
          (fs : Fields) (path : Str) (table : Table)
          → AllValid table
          → Grows (λ size ns. AllFit size fs ns) table (new_nodes itoa (some c) path fs table)
      new_nodes-Grows no_fields path table vs = grown no_nodes table refl vs (omega arith) refl
      new_nodes-Grows (add_field f fs) path table vs =
          bind-Grows _ _ table _ _ (new_transform_node_from-Grows f path table vs)
            (λ n t1 vs1 _ fit.
              bind-Grows _ _ t1 _ _ (new_nodes-Grows fs path t1 vs1) (λ ns t2 vs2 le fit2.
                grown (add_node n ns) t2 refl vs2 (omega arith)
                  (Fits-le (length t1) (length t2) le n f fit, fit2)))

    -- NewTransformTreeFrom does not panic on a configuration whose minimum is not above its maximum: the
    -- tree has the shape of the prototype, removes only optional fields, and points to the
    -- dictionary fields it makes, which are valid.
    pub new_transform_tree_from-Grows :
        (fs : Fields)
        → Grows (λ size ns. AllFit size fs ns) [] (new_transform_tree_from itoa (some c) fs)
    unfolding new_transform_tree_from
    new_transform_tree_from-Grows fs = new_nodes-Grows fs [] [] tt
