-- ===== src/Schema/Record/Tables.antt =====
-- The table of dictionary fields under the passes of RecordBuilderExt (builder/record.go of
-- pkg/otel/common/schema): RevertCounters and detectDictionaryOverflow.
use otel_arrow_adapter.Base.{
  ℕ, suc, ◌+◌, ◌≤◌, ◌≡◌, ◌≢◌, refl, sym, subst, ap, ◌==◌, ◌∙◌, ◌⊎◌, inl, inr, true, false, some,
  List, [], ◌∷◌, length, map, get_or, arith, Str, Option-cases, Bool-cases, str_eq, if◌then◌else◌,
}
use otel_arrow_adapter.Schema.Dictionary.{
  DictionaryField, IndexType, Shared, add_total, set_cardinality,
}
use otel_arrow_adapter.Schema.Dictionary.Updates.{
  IsValid, Outcome, kept, widened, overflowed, set_cardinality-IsValid, set_cardinality-Outcome,
  Outcome-room, room,
}
use otel_arrow_adapter.Schema.Tree.{Table}
use otel_arrow_adapter.Schema.NewSchema.Transforms.{AllValid}
use otel_arrow_adapter.Schema.Record.{observe_column}

-- What decides on overflow: the id, the index types with their capacities, and the current one.
pub record Shape : Type 0 where
  pub dict_id : Str
  pub index_types : List IndexType
  pub index_max_card : List ℕ
  pub current_index : ℕ

abbrev pub shape : DictionaryField → Shape
shape t = record {
  dict_id = t.dict_id;
  index_types = t.index_types;
  index_max_card = t.index_max_card;
  current_index = t.current_index;
}

abbrev pub shapes : Table → List Shape
shapes table = map shape table

-- The dictionary with this id has no index type, or one that numbers this many values.
unfoldable pub HasRoom : Str → ℕ → List Shape → Type 0
HasRoom id card [] = ⊥
HasRoom id card (t ∷ ts) =
    if str_eq t.dict_id id
    then (t.index_types ≡ []) ⊎ (card ≤ get_or t.index_max_card t.current_index 0)
    else HasRoom id card ts

-- How many updates the fields of a table can still ask for.
unfoldable pub total_room : Table → ℕ
total_room [] = 0
total_room (t ∷ table) = room t + total_room table

-- The state after a pass over columns: the table stays valid and keeps its size, and without a new
-- request for an update it keeps its shapes, and the columns have room in it; with a new request they
-- do not.
pub record Passed (Room : List Shape → Type 0) (table : Table) (s : Shared) (table' : Table)
    (s' : Shared) : Type 0 where
  pub valid : AllValid table'
  pub same_length : length table' ≡ length table
  pub count_le : s.count ≤ s'.count
  pub room_le : s'.count + total_room table' ≤ s.count + total_room table
  pub quiet : s'.count ≡ s.count → (shapes table' ≡ shapes table) × Room (shapes table)
  pub noisy : s'.count ≢ s.count → Room (shapes table) → ⊥

add_total-IsValid : (t : DictionaryField) (len : ℕ) → IsValid t → IsValid (add_total t len)
unfolding add_total
add_total-IsValid t len v = record { cards = v.cards; lengths = v.lengths; in_range = v.in_range }

abbrev RoomIn : DictionaryField → ℕ → Type 0
RoomIn t card = (t.index_types ≡ []) ⊎ (card ≤ get_or t.index_max_card t.current_index 0)

Outcome-quiet :
    (t : DictionaryField) (s : Shared) (card : ℕ) (t' : DictionaryField) (s' : Shared)
    → Outcome t s card t' s'
    → (s.count ≤ s'.count) × (s'.count ≡ s.count → (shape t' ≡ shape t) × RoomIn t card)
Outcome-quiet t s card t' s' (kept room e f) = (ground arith, λ _. (ap shape e, room))
Outcome-quiet t s card t' s' (widened _ _ _ _ f _) = (omega (arith, f), λ q. absurd (apart q f))
  where
    apart : s'.count ≡ s.count → s'.count ≡ s.count + 1 → ⊥
    apart q f = omega (arith, q, f)
Outcome-quiet t s card t' s' (overflowed _ _ _ f _ _) = (omega (arith, f), λ q. absurd (apart q f))
  where
    apart : s'.count ≡ s.count → s'.count ≡ s.count + 1 → ⊥
    apart q f = omega (arith, q, f)

-- An update is only asked for where there is no room.
Outcome-noisy :
    (t : DictionaryField) (s : Shared) (card : ℕ) (t' : DictionaryField) (s' : Shared)
    → IsValid t
    → IsValid t'
    → Outcome t s card t' s'
    → s'.count ≢ s.count
    → RoomIn t card
    → ⊥
Outcome-noisy t s card t' s' v v' (kept room e f) q has = q (ap (λ u. u.count) f)
Outcome-noisy t s card t' s' v v' (widened lt same _ _ _ _) q (inl gone) = elim v'.in_range [
  | inl (_, at_zero) ↦ omega (arith, lt, at_zero)
  | inr inside ↦ omega (arith, inside, ap length same, ap length gone)
]
Outcome-noisy t s card t' s' v v' (widened lt same _ passed _ _) q (inr le) =
    omega (arith, le, passed t.current_index (omega arith) lt)
Outcome-noisy t s card t' s' v v' (overflowed some_types _ passed _ _ _) q (inl gone) =
    some_types gone
Outcome-noisy t s card t' s' v v' (overflowed some_types _ passed _ _ _) q (inr le) =
    elim v.in_range [
      | inl (gone, _) ↦ some_types gone
      | inr inside ↦ omega (arith, le, passed t.current_index (omega arith) inside)
    ]

-- One observation of the field that has the id.
observed-Passed :
    (id : Str) (card : ℕ) (t t' : DictionaryField) (table : Table) (s s' : Shared)
    → str_eq t.dict_id id ≡ true
    → IsValid t'
    → AllValid table
    → s'.count + room t' ≤ s.count + room t
    → (s.count ≤ s'.count) × (s'.count ≡ s.count → (shape t' ≡ shape t) × RoomIn t card)
    → (s'.count ≢ s.count → RoomIn t card → ⊥)
    → Passed (HasRoom id card) (t ∷ table) s (t' ∷ table) s'
unfolding HasRoom total_room
observed-Passed id card t t' table s s' here v vs less (le, same) noisy = record {
  room_le = omega (arith, less);
  valid = (v, vs);
  same_length = refl;
  count_le = le;
  quiet = λ q. (ap (λ u. u ∷ shapes table) (same q).0, rw here (same q).1);
  noisy = λ q has. noisy q (rw here at has);
}

-- An observation further on.
later-Passed :
    (id : Str) (card : ℕ) (t : DictionaryField) (table table' : Table) (s s' : Shared)
    → str_eq t.dict_id id ≡ false
    → IsValid t
    → Passed (HasRoom id card) table s table' s'
    → Passed (HasRoom id card) (t ∷ table) s (t ∷ table') s'
unfolding HasRoom total_room
later-Passed id card t table table' s s' not_here v p = record {
  valid = (v, p.valid);
  same_length = ap suc p.same_length;
  count_le = p.count_le;
  room_le = omega (arith, p.room_le);
  quiet = λ q. (ap (λ us. shape t ∷ us) (p.quiet q).0, rw not_here (p.quiet q).1);
  noisy = λ q has. p.noisy q (rw not_here at has);
}

observe_column-here :
    (id : Str) (len card : ℕ) (t : DictionaryField) (table : Table) (s : Shared)
    (r : Table × Shared)
    → str_eq t.dict_id id ≡ true
    → observe_column id len card (t ∷ table) s ≡ some r
    → (
      (set_cardinality (add_total t len) s card).0 ∷ table,
      (set_cardinality (add_total t len) s card).1,
    )
      ≡ r
unfolding observe_column
observe_column-here id len card t table s r here e = ground arith

observe_column-there :
    (id : Str) (len card : ℕ) (t : DictionaryField) (table : Table) (s : Shared)
    (r : Table × Shared)
    → str_eq t.dict_id id ≡ false
    → observe_column id len card (t ∷ table) s ≡ some r
    → (r1 : Table × Shared) × (observe_column id len card table s ≡ some r1)
      × ((t ∷ r1.0, r1.1) ≡ r)
unfolding observe_column
observe_column-there id len card t table s r not_here e =
    elim (Option-cases (observe_column id len card table s)) [
      | inl missing ↦ ground arith
      | inr (r1, found) ↦ (r1, found, ground arith)
    ]

pub observe_column-Passed :
    (id : Str) (len card : ℕ) (table : Table) (s : Shared) (r : Table × Shared)
    → AllValid table
    → observe_column id len card table s ≡ some r
    → Passed (HasRoom id card) table s r.0 r.1
unfolding observe_column room
observe_column-Passed id len card [] s r vs e = ground arith
observe_column-Passed id len card (t ∷ table) s r (v, vs) e =
    elim (Bool-cases (str_eq t.dict_id id)) [
      | inl here ↦
          let t1 : DictionaryField = add_total t len in
          let v1 = add_total-IsValid t len v in
          rw (← observe_column-here id len card t table s r here e) (
            observed-Passed id card t (set_cardinality t1 s card).0 table s
              (set_cardinality t1 s card).1 here (set_cardinality-IsValid t1 s card v1) vs
              (Outcome-room t1 s card _ _ (set_cardinality-Outcome t1 s card v1) v1
                (set_cardinality-IsValid t1 s card v1))
              (Outcome-quiet t1 s card _ _ (set_cardinality-Outcome t1 s card v1))
              (Outcome-noisy t1 s card _ _ v1 (set_cardinality-IsValid t1 s card v1)
                (set_cardinality-Outcome t1 s card v1)))
      | inr not_here ↦
          let (r1, found, is_r) = observe_column-there id len card t table s r not_here e in
          rw (← is_r) (
            later-Passed id card t table r1.0 s r1.1 not_here v
              (observe_column-Passed id len card table s r1 vs found))
    ]

-- Nothing happened.
pub unchanged :
    (Room : List Shape → Type 0) (table : Table) (s : Shared)
    → AllValid table
    → Room (shapes table)
    → Passed Room table s table s
unchanged Room table s vs room = record {
  valid = vs;
  same_length = refl;
  count_le = omega arith;
  room_le = omega arith;
  quiet = λ _. (refl, room);
  noisy = λ q _. q refl;
}

-- One pass after another.
pub both :
    (R Q : List Shape → Type 0) (table t1 t2 : Table) (s s1 s2 : Shared)
    → Passed R table s t1 s1
    → Passed Q t1 s1 t2 s2
    → Passed (λ ts. R ts × Q ts) table s t2 s2
both R Q table t1 t2 s s1 s2 p q = record {
  valid = q.valid;
  same_length = q.same_length ∙ p.same_length;
  count_le = omega (arith, p.count_le, q.count_le);
  room_le = omega (arith, p.room_le, q.room_le);
  quiet = λ same. after same (p.quiet (first same)) (q.quiet (second same));
  noisy = λ more (r, q'). elim (Bool-cases (s1.count == s.count)) [
    | inl same ↦
        let same1 : s1.count ≡ s.count = ground arith in
        q.noisy (λ e. more (e ∙ same1)) (subst Q (sym (p.quiet same1).0) q')
    | inr more1 ↦ p.noisy (apart more1) r
  ];
}
  where
    apart : (s1.count == s.count) ≡ false → s1.count ≢ s.count
    apart h e = ground arith

    first : s2.count ≡ s.count → s1.count ≡ s.count
    first same = omega (arith, p.count_le, q.count_le)

    second : s2.count ≡ s.count → s2.count ≡ s1.count
    second same = omega (arith, p.count_le, q.count_le)

    after :
        s2.count ≡ s.count
        → (shapes t1 ≡ shapes table) × R (shapes table)
        → (shapes t2 ≡ shapes t1) × Q (shapes t1)
        → (shapes t2 ≡ shapes table) × (R (shapes table) × Q (shapes table))
    after same (e, r) (f, q) = (f ∙ e, (r, subst Q e q))
