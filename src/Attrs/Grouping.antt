-- ===== src/Attrs/Grouping.antt =====
-- The map of a parent id in the store of attributes_new.go, in terms of the attribute rows.
use mathlib.Core.List.{Permᴰ}
use mathlib.Core.List.Permᴰ
use otel_arrow_adapter.Base.{
  ℕ, ◌≡◌, refl, sym, ◌∙◌, subst, inl, inr, Option, none, some, List, [], ◌∷◌, arith, ◌==◌,
  if◌then◌else◌, Bool-cases, Str,
}
use otel_arrow_adapter.Attrs.Value.{Value}
use otel_arrow_adapter.Attrs.Sorter.{Attr}
use otel_arrow_adapter.Attrs.Store.{MapApi, put_attr, attributes_by_id}
use otel_arrow_adapter.Attrs.Rows.{put_all, All}

-- The entries of one parent, in the order of the rows.
abbrev pub rows_of : ℕ → List Attr → List (Str × Value)
rows_of id [] = []
rows_of id (a ∷ attrs) =
    let rest = rows_of id attrs in if a.parent_id == id then (a.key, a.value) ∷ rest else rest

module _ {ℓ} {M : Type ℓ} (api : MapApi M) where
  -- Putting entries into the map of a parent, which is made by the first.
  abbrev pub put_rows : Option M → List (Str × Value) → Option M
  put_rows o [] = o
  put_rows none ((k, v) ∷ rows) = put_rows (some (api.put api.new_map k v)) rows
  put_rows (some m) ((k, v) ∷ rows) = put_rows (some (api.put m k v)) rows

  attributes_by_id-put_attr :
      (store : List (ℕ × M)) (i id : ℕ) (k : Str) (v : Value)
      → attributes_by_id api (put_attr api store i k v) id ≡ (
          if i == id
          then put_rows (attributes_by_id api store id) ((k, v) ∷ [])
          else attributes_by_id api store id)
  unfolding attributes_by_id put_attr
  attributes_by_id-put_attr [] i id k v = ground arith
  attributes_by_id-put_attr ((j, m) ∷ store) i id k v =
      ground (arith, attributes_by_id-put_attr store i id k v)

  put_rows-cons :
      (o : Option M) (k : Str) (v : Value) (rows : List (Str × Value))
      → put_rows o ((k, v) ∷ rows) ≡ put_rows (put_rows o ((k, v) ∷ [])) rows
  put_rows-cons none k v rows = refl
  put_rows-cons (some m) k v rows = refl

  pub attributes_by_id-put_all :
      (store : List (ℕ × M)) (attrs : List Attr) (id : ℕ)
      → attributes_by_id api (put_all api store attrs) id
        ≡ put_rows (attributes_by_id api store id) (rows_of id attrs)
  attributes_by_id-put_all store [] id = refl
  attributes_by_id-put_all store (a ∷ attrs) id =
      let ih = attributes_by_id-put_all (put_attr api store a.parent_id a.key a.value) attrs id in
      let p = attributes_by_id-put_attr store a.parent_id id a.key a.value in
      let q = put_rows-cons (attributes_by_id api store id) a.key a.value (rows_of id attrs) in
      elim (Bool-cases (a.parent_id == id)) [
        | inl e ↦ ih ∙ rw (p, e, q) refl
        | inr e ↦ ih ∙ rw (p, e) refl
      ]

cons-perm :
    (id : ℕ) (a b : Attr) (xs ys : List Attr)
    → a ≡ b
    → Permᴰ (rows_of id xs) (rows_of id ys)
    → Permᴰ (rows_of id (a ∷ xs)) (rows_of id (b ∷ ys))
cons-perm id a b xs ys e p =
    rw e
      (elim (Bool-cases (b.parent_id == id)) [ inl t ↦ rw t (Permᴰ.cons refl p) | inr t ↦ rw t p ])

swap-perm :
    (id : ℕ) (a b a' b' : Attr) (l : List Attr)
    → a ≡ b'
    → b ≡ a'
    → Permᴰ (rows_of id (a ∷ b ∷ l)) (rows_of id (a' ∷ b' ∷ l))
swap-perm id a b a' b' l e f =
    rw (e, f)
      (elim (Bool-cases (b'.parent_id == id)) [
        | inl t ↦ elim (Bool-cases (a'.parent_id == id)) [
          | inl u ↦ rw (t, u) (Permᴰ.swap refl refl)
          | inr u ↦ rw (t, u) (Permᴰ.refl _)
        ]
        | inr t ↦ elim (Bool-cases (a'.parent_id == id)) [
          | inl u ↦ rw (t, u) (Permᴰ.refl _)
          | inr u ↦ rw (t, u) (Permᴰ.refl _)
        ]
      ])

-- Where the rows are permuted, so are the entries of each parent.
pub rows_of-perm :
    (id : ℕ) {xs ys : List Attr} → Permᴰ xs ys → Permᴰ (rows_of id xs) (rows_of id ys)
rows_of-perm id Permᴰ.nil = Permᴰ.nil
rows_of-perm id (Permᴰ.cons {a = a} {b = b} {l₁ = xs} {l₂ = ys} e p) =
    cons-perm id a b xs ys e (rows_of-perm id p)
rows_of-perm id (Permᴰ.swap {a = a} {b = b} {a' = a'} {b' = b'} {l = l} e f) =
    swap-perm id a b a' b' l e f
rows_of-perm id (Permᴰ.trans p q) = Permᴰ.trans (rows_of-perm id p) (rows_of-perm id q)

pub All-perm {ℓ} : (P : Attr → Type ℓ) {xs ys : List Attr} → Permᴰ xs ys → All P ys → All P xs
All-perm P Permᴰ.nil h = tt
All-perm P (Permᴰ.cons e p) h = (subst P (sym e) h.0, All-perm P p h.1)
All-perm P (Permᴰ.swap e f) h = (subst P (sym e) h.1.0, (subst P (sym f) h.0, h.1.1))
All-perm P (Permᴰ.trans p q) h = All-perm P p (All-perm P q h)
