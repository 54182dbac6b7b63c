-- ===== src/Schema/Dictionary/Updates.antt =====
-- Changes of a dictionary field and its schema update requests (transform/dictionary.go of
-- pkg/otel/common/schema).
use otel_arrow_adapter.Base.{
  ℕ, ◌+◌, ◌-◌, ◌≤◌, ◌<◌, ◌≡◌, refl, ◌⊎◌, ◌≢◌, Bool-cases, leb, inl, inr, ◌==◌, if◌then◌else◌, List,
  [], ◌∷◌, map, Option, none, some, length, get_or, drop, arith,
}
use otel_arrow_adapter.Schema.Dictionary.{
  IndexType, uint8, uint16, uint32, uint64, Dictionary, Shared, DictionaryField,
  new_dictionary_field, advance, index_type, set_cardinality,
}
use otel_arrow_adapter.Schema.Dictionary.Search.{
  advance-skip, skip, skip_fits, skip_passed, length-drop, get_or-drop,
}

-- The largest dictionary that an index type can number.
abbrev pub max_card_of : IndexType → ℕ
max_card_of uint8 = 255
max_card_of uint16 = 65535
max_card_of uint32 = 4294967295
max_card_of uint64 = 18446744073709551615

-- The two lists of a field belong together, and its index is in range while it has index types.
pub record IsValid (t : DictionaryField) : Type 0 where
  pub cards : t.index_max_card ≡ map max_card_of t.index_types
  pub lengths : length t.index_max_card ≡ length t.index_types
  pub in_range :
      (t.index_types ≡ []) × (t.current_index ≡ 0) ⊎ (t.current_index < length t.index_types)

-- `ty` holds `card` values, and no narrower type does.
abbrev pub IsNarrowest : ℕ → IndexType → Type 0
IsNarrowest card ty =
    (card ≤ max_card_of ty)
    × ((other : IndexType) → max_card_of other < max_card_of ty → max_card_of other < card)

-- The constructor does not panic, and the field is valid and starts at the narrowest type for the
-- configuration's minimum, or with none where the maximum is 0.
abbrev pub Starts : Dictionary → Option DictionaryField → Type 0
Starts config none = ⊥
Starts config (some t) =
    IsValid t
    × (((config.max_card ≡ 0) × (index_type t ≡ none))
        ⊎ ((ty : IndexType) × (index_type t ≡ some ty) × IsNarrowest config.min_card ty))

narrowest : ℕ → IndexType
narrowest card =
    if leb card 255
    then uint8
    else if leb card 65535
    then uint16
    else if leb card 4294967295
    then uint32
    else uint64

narrowest-IsNarrowest : (card : ℕ) → card < 18446744073709551616 → IsNarrowest card (narrowest card)
unfolding narrowest
narrowest-IsNarrowest card h = (ground arith, λ other. after other)
  where
    after :
        (other : IndexType)
        → max_card_of other < max_card_of (narrowest card)
        → max_card_of other < card
    after uint8 = ground arith
    after uint16 = ground arith
    after uint32 = ground arith
    after uint64 = ground arith

-- Where the configuration's minimum is not above its maximum and both are uint64, NewDictionaryField
-- does not panic: the field is valid, and it starts at the narrowest index type for the minimum, or
-- without one where the maximum is 0.
pub new_dictionary_field-Starts :
    (path dict_id : List ℕ) (config : Dictionary)
    → config.min_card ≤ config.max_card
    → config.max_card < 18446744073709551616
    → Starts config (new_dictionary_field path dict_id (some config))
unfolding new_dictionary_field index_type narrowest
new_dictionary_field-Starts path dict_id config h k =
    ground (arith, narrowest-IsNarrowest config.min_card)

-- Where the search of `updateIndexType` stops.
target : DictionaryField → ℕ → ℕ
target t card = advance card (drop t.current_index t.index_max_card) t.current_index

target-ge : (t : DictionaryField) (card : ℕ) → t.current_index ≤ target t card
unfolding target
target-ge t card =
    omega (arith, advance-skip card (drop t.current_index t.index_max_card) t.current_index)

-- The type at `target` holds `card`, where there is one.
target_fits :
    (t : DictionaryField) (card : ℕ)
    → target t card < length t.index_max_card
    → card ≤ get_or t.index_max_card (target t card) 0
unfolding target
target_fits t card h = rw e (rw (← get_or-drop t.current_index n t.index_max_card 0) fits)
  where
    maxs : List ℕ
    maxs = drop t.current_index t.index_max_card

    n : ℕ
    n = skip card maxs

    e : advance card maxs t.current_index ≡ t.current_index + n
    e = advance-skip card maxs t.current_index

    fits : card ≤ get_or maxs n 0
    fits = skip_fits card maxs (omega (arith, e, length-drop t.current_index t.index_max_card))

-- Each type from the current one up to `target` is too narrow.
target_passed :
    (t : DictionaryField) (card k : ℕ)
    → t.current_index ≤ k
    → k < target t card
    → get_or t.index_max_card k 0 < card
unfolding target
target_passed t card k lo hi =
    let e : t.current_index + (k - t.current_index) ≡ k = omega arith in
    rw (← e) (
      rw (← get_or-drop t.current_index (k - t.current_index) t.index_max_card 0) (
        skip_passed card (drop t.current_index t.index_max_card) (k - t.current_index) (
          omega
            (arith, advance-skip card (drop t.current_index t.index_max_card) t.current_index))))

-- SetCardinality keeps a valid field valid.
pub set_cardinality-IsValid :
    (t : DictionaryField) (s : Shared) (card : ℕ) → IsValid t → IsValid (set_cardinality t s card).0
unfolding set_cardinality
set_cardinality-IsValid t s card v = ground arith

-- What `SetCardinality` does: it keeps the index type, widens it, or gives the dictionary up.
pub data Outcome (t : DictionaryField) (s : Shared) (card : ℕ) (t' : DictionaryField) (s' : Shared)
    : Type 0 where
  kept :
      (t.index_types ≡ []) ⊎ (card ≤ get_or t.index_max_card t.current_index 0)
      → t' ≡ record t { cardinality = card }
      → s' ≡ s
      → Outcome t s card t' s'
  widened :
      t.current_index < t'.current_index
      → t'.index_types ≡ t.index_types
      → card ≤ get_or t.index_max_card t'.current_index 0
      → ((k : ℕ) → t.current_index ≤ k → k < t'.current_index → get_or t.index_max_card k 0 < card)
      → s'.count ≡ s.count + 1
      → s'.dictionary_index_type_changed ≡ s.dictionary_index_type_changed + 1
      → Outcome t s card t' s'
  overflowed :
      t.index_types ≢ []
      → t'.index_types ≡ []
      → ((k : ℕ)
          → t.current_index ≤ k
          → k < length t.index_types
          → get_or t.index_max_card k 0 < card)
      → s'.count ≡ s.count + 1
      → s'.dictionaries_with_overflow ≡ t.path ∷ s.dictionaries_with_overflow
      → s'.dictionary_overflow_detected ≡ s.dictionary_overflow_detected + 1
      → Outcome t s card t' s'

advance-Outcome :
    (t : DictionaryField) (s : Shared) (card : ℕ) (types : List IndexType)
    → t.index_types ≡ types
    → IsValid t
    → Outcome t s card (set_cardinality t s card).0 (set_cardinality t s card).1
unfolding set_cardinality target
advance-Outcome t s card [] e v = kept (inl e) (ground arith) (ground arith)
advance-Outcome t s card (first ∷ others) e v =
    elim (Bool-cases (leb (length t.index_types) (target t card))) [
      | inl over ↦
          overflowed (ground arith) (ground arith)
            (λ k lo hi. target_passed t card k lo (ground arith)) (ground arith) (ground arith)
            (ground arith)
      | inr room ↦ elim (Bool-cases (target t card == t.current_index)) [
        | inl same ↦ kept (inr (ground (arith, target_fits t card))) (ground arith) (ground arith)
        | inr moved ↦
            widened (ground (arith, target-ge t card)) (ground arith)
              (ground (arith, target_fits t card))
              (λ k lo hi. target_passed t card k lo (ground arith)) (ground arith) (ground arith)
      ]
    ]

-- SetCardinality on a valid field keeps its index type, or moves to the narrowest one that holds the
-- cardinality and asks for one schema update, or, where none does, drops the dictionary for good
-- and asks for one update.
pub set_cardinality-Outcome :
    (t : DictionaryField) (s : Shared) (card : ℕ)
    → IsValid t
    → Outcome t s card (set_cardinality t s card).0 (set_cardinality t s card).1
set_cardinality-Outcome t s card v = advance-Outcome t s card t.index_types refl v

-- The observed cardinalities of one field, in order.
unfoldable pub observe : DictionaryField → Shared → List ℕ → DictionaryField × Shared
observe t s [] = (t, s)
observe t s (card ∷ cards) = let (t', s') = set_cardinality t s card in observe t' s' cards

-- How many updates a field can still ask for.
unfoldable pub room : DictionaryField → ℕ
room t = length t.index_types - t.current_index

pub Outcome-room :
    (t : DictionaryField) (s : Shared) (card : ℕ) (t' : DictionaryField) (s' : Shared)
    → Outcome t s card t' s'
    → IsValid t
    → IsValid t'
    → s'.count + room t' ≤ s.count + room t
unfolding room
Outcome-room t s card t' s' (kept _ e f) v v' = ground arith
Outcome-room t s card t' s' (widened up e _ _ f _) v v' = ground arith
Outcome-room t s card t' s' (overflowed ne e _ f _ _) v v' = ground arith

-- However the cardinality of a valid field moves, it asks for no more schema updates than it has index
-- types from the current one on.
pub observe-room :
    (t : DictionaryField) (s : Shared) (cards : List ℕ)
    → IsValid t
    → (observe t s cards).1.count ≤ s.count + room t
unfolding observe
observe-room t s [] v = omega arith
observe-room t s (card ∷ cards) v =
    let v' = set_cardinality-IsValid t s card v in
    omega (
      arith,
      observe-room (set_cardinality t s card).0 (set_cardinality t s card).1 cards v',
      Outcome-room t s card _ _ (set_cardinality-Outcome t s card v) v v',
    )
