-- ===== src/Attrs/Rows.antt =====
-- One row of an attribute record, from TryBuild to the loop of Attributes16StoreFrom.
use otel_arrow_adapter.Base.{
  ℕ, zero, suc, ◌≡◌, refl, [], ◌∷◌, List, Option, none, some, Str, arith, Result, ok, err, panic,
  ◌>>=◌, length,
}
use otel_arrow_adapter.Attrs.Value.{
  Value, empty, str, int, double, bool, kvlist, slice, bytes, type_of,
}
use otel_arrow_adapter.Attrs.Sorter.{Attr}
use otel_arrow_adapter.Attrs.Decoder.{ParentIdDecoder, decode}
use otel_arrow_adapter.Attrs.Columns.{Columns, append_value, string_cell}
use otel_arrow_adapter.Attrs.Store.{MapApi, read_value, put_attr, read_row, read_rows}

-- A value that a record can hold: it is not empty, and if it is a slice or a map then it can be
-- serialized, and reading it back gives it.
abbrev pub IsCarried : (Value → Option (List ℕ)) → (List ℕ → Option Value) → Value → Type 0
IsCarried serialize deserialize empty = ⊥
IsCarried serialize deserialize (slice s) =
    (b : List ℕ) × (serialize (slice s) ≡ some b) × (deserialize b ≡ some (slice s))
IsCarried serialize deserialize (kvlist m) =
    (b : List ℕ) × (serialize (kvlist m) ≡ some b) × (deserialize b ≡ some (kvlist m))
IsCarried serialize deserialize _ = Unit {0}

-- The attributes put into the store one by one.
abbrev pub put_all {ℓ} : {M : Type ℓ} → MapApi M → List (ℕ × M) → List Attr → List (ℕ × M)
put_all api store [] = store
put_all api store (a ∷ attrs) = put_all api (put_attr api store a.parent_id a.key a.value) attrs

abbrev pub All {ℓ} : (Attr → Type ℓ) → List Attr → Type ℓ
All P [] = Unit
All P (a ∷ attrs) = P a × All P attrs

pub >>=-cong {ℓ κ μ} :
    {E : Type ℓ} {A : Type κ} {B : Type μ} (r : Result E A) (f g : A → Result E B)
    → ((a : A) → f a ≡ g a)
    → (r >>= f) ≡ (r >>= g)
>>=-cong (ok a) f g h = h a
>>=-cong (err e) f g h = refl
>>=-cong panic f g h = refl

-- Every column has `n` cells.
pub record HasRows (n : ℕ) (c : Columns) : Type 0 where
  pub parent_ids : length c.parent_ids ≡ n
  pub keys : length c.keys ≡ n
  pub types : length c.types ≡ n
  pub strs : length c.strs ≡ n
  pub ints : length c.ints ≡ n
  pub doubles : length c.doubles ≡ n
  pub bools : length c.bools ≡ n
  pub binaries : length c.binaries ≡ n
  pub sers : length c.sers ≡ n

-- One row in front of the rows `rest`.
abbrev pub add_row : (Value → Option (List ℕ)) → ℕ → Str → Value → Columns → Columns
add_row serialize n key value rest =
    let r = append_value serialize value rest in
    record r { parent_ids = n ∷ r.parent_ids; keys = string_cell key ∷ r.keys }

module _ (serialize : Value → Option (List ℕ)) (deserialize : List ℕ → Option Value) where
  -- The first row reads as the value that was written.
  pub read_value-add_row :
      (n : ℕ) (key : Str) (value : Value) (rest : Columns)
      → IsCarried serialize deserialize value
      → read_value deserialize (add_row serialize n key value rest) (type_of value) 0 ≡ ok value
  unfolding read_value append_value type_of
  read_value-add_row n key empty rest h = absurd h
  read_value-add_row n key (str []) rest h = refl
  read_value-add_row n key (str (c ∷ s)) rest h = refl
  read_value-add_row n key (int i) rest h = refl
  read_value-add_row n key (double d) rest h = refl
  read_value-add_row n key (bool b) rest h = refl
  read_value-add_row n key (bytes b) rest h = refl
  read_value-add_row n key (slice s) rest h = ground arith
  read_value-add_row n key (kvlist s) rest h = ground arith

  pub types-append_value :
      (value : Value) (rest : Columns)
      → IsCarried serialize deserialize value
      → (append_value serialize value rest).types ≡ type_of value ∷ rest.types
  unfolding append_value
  types-append_value empty rest h = absurd h
  types-append_value (str s) rest h = refl
  types-append_value (int i) rest h = refl
  types-append_value (double b) rest h = refl
  types-append_value (bool b) rest h = refl
  types-append_value (bytes b) rest h = refl
  types-append_value (slice s) rest h = rw h.1
  types-append_value (kvlist s) rest h = rw h.1

  -- A carried value gives one cell to each column.
  pub lengths-add_row :
      (n k : ℕ) (key : Str) (value : Value) (rest : Columns)
      → IsCarried serialize deserialize value
      → HasRows k rest
      → HasRows (suc k) (add_row serialize n key value rest)
  unfolding append_value
  lengths-add_row n k key empty rest h r = absurd h
  lengths-add_row n k key (str s) rest h r = omega arith
  lengths-add_row n k key (int i) rest h r = omega arith
  lengths-add_row n k key (double b) rest h r = omega arith
  lengths-add_row n k key (bool b) rest h r = omega arith
  lengths-add_row n k key (bytes b) rest h r = omega arith
  lengths-add_row n k key (slice s) rest h r = rw h.1 (omega arith)
  lengths-add_row n k key (kvlist s) rest h r = rw h.1 (omega arith)

module _ {ℓ} {M : Type ℓ} (api : MapApi M) (serialize : Value → Option (List ℕ))
    (deserialize : List ℕ → Option Value) (m : ℕ) where
  -- The rows below the first read as they did before it was put in front.
  pub read_row-add_row :
      (n : ℕ) (key : Str) (value : Value) (rest : Columns)
      → IsCarried serialize deserialize value
      → (row : ℕ) (d : ParentIdDecoder) (store : List (ℕ × M))
      → read_row api deserialize m (add_row serialize n key value rest) (suc row) d store
        ≡ read_row api deserialize m rest row d store
  unfolding read_row read_value append_value
  read_row-add_row n key empty rest h row d store = absurd h
  read_row-add_row n key (str s) rest h row d store = refl
  read_row-add_row n key (int i) rest h row d store = refl
  read_row-add_row n key (double b) rest h row d store = refl
  read_row-add_row n key (bool b) rest h row d store = refl
  read_row-add_row n key (bytes b) rest h row d store = refl
  read_row-add_row n key (slice s) rest h row d store = rw h.1
  read_row-add_row n key (kvlist s) rest h row d store = rw h.1

  pub read_rows-add_row :
      (n : ℕ) (key : Str) (value : Value) (rest : Columns)
      → IsCarried serialize deserialize value
      → (left row : ℕ) (d : ParentIdDecoder) (store : List (ℕ × M))
      → read_rows api deserialize m (add_row serialize n key value rest) left (suc row) d store
        ≡ read_rows api deserialize m rest left row d store
  unfolding read_rows
  read_rows-add_row n key value rest h zero row d store = refl
  read_rows-add_row n key value rest h (suc left) row d store =
      rw (read_row-add_row n key value rest h row d store) (
        >>=-cong (read_row api deserialize m rest row d store) _ _
          (λ next. read_rows-add_row n key value rest h left (suc row) next.0 next.1))

  -- The first row is read with the parent id that the decoder returns.
  pub read_row-first :
      (n id : ℕ) (key : Str) (value : Value) (rest : Columns) (d d' : ParentIdDecoder)
      (store : List (ℕ × M))
      → IsCarried serialize deserialize value
      → decode m d n key value ≡ some (id, d')
      → read_row api deserialize m (add_row serialize n key value rest) 0 d store
        ≡ ok (d', put_attr api store id key value)
  unfolding read_row string_cell
  read_row-first n id [] value rest d d' store h e = ground (
    arith,
    types-append_value serialize deserialize value rest h,
    read_value-add_row serialize deserialize n [] value rest h,
  )
  read_row-first n id (c ∷ cs) value rest d d' store h e = ground (
    arith,
    types-append_value serialize deserialize value rest h,
    read_value-add_row serialize deserialize n (c ∷ cs) value rest h,
  )

  -- Where the decoder panics on the first row, so does reading it.
  pub read_row-panic :
      (n : ℕ) (key : Str) (value : Value) (rest : Columns) (d : ParentIdDecoder)
      (store : List (ℕ × M))
      → IsCarried serialize deserialize value
      → decode m d n key value ≡ none
      → read_row api deserialize m (add_row serialize n key value rest) 0 d store ≡ panic
  unfolding read_row string_cell
  read_row-panic n [] value rest d store h e = ground (
    arith,
    types-append_value serialize deserialize value rest h,
    read_value-add_row serialize deserialize n [] value rest h,
  )
  read_row-panic n (c ∷ cs) value rest d store h e = ground (
    arith,
    types-append_value serialize deserialize value rest h,
    read_value-add_row serialize deserialize n (c ∷ cs) value rest h,
  )
