-- ===== src/Traces/DeltaIds.antt =====
-- Uint16DeltaBuilder and Uint32DeltaBuilder of pkg/otel/common/schema/builder/uint.go, and
-- AttributesByDeltaID of pkg/otel/common/otlp/attributes_new.go: ids as deltas. The Arrow builder
-- below is a parameter: what a call appends to it is returned.
use otel_arrow_adapter.Base.{
  ℕ, suc, ◌-◌, ◌≤◌, ◌<◌, ◌≡◌, Option, arith, ltb, ◌==◌, if◌then◌else◌, add_word, add_word-eq_of_lt,
  Result, ok, panic,
}

-- The Arrow builder of a column: nil, one for plain words, or one for a dictionary.
pub data Column : Type 0 where
  absent plain dictionary : Column

-- What a call appends to the column.
pub data Cell : Type 0 where
  nothing null : Cell
  word : ℕ → Cell

-- `len` is the Arrow builder's length; `requests` counts the schema updates that were asked for.
pub record DeltaBuilder : Type 0 where
  pub column : Column
  pub len : ℕ
  pub prev : ℕ
  pub max_delta : ℕ
  pub requests : ℕ

-- NewUint32DeltaBuilder (NewUint16DeltaBuilder), with `max` its largest word.
unfoldable pub new_delta_builder : ℕ → Column → DeltaBuilder
new_delta_builder max column = record {
  column = column;
  len = 0;
  prev = 0;
  max_delta = max;
  requests = 0;
}

unfoldable pub set_max_delta : DeltaBuilder → ℕ → DeltaBuilder
set_max_delta b delta = record b { max_delta = delta }

append_plain : DeltaBuilder → ℕ → Result ⊥ (Cell × DeltaBuilder)
append_plain b value =
    let b' = record b { len = suc b.len; prev = value } in
    if b.len == 0
    then ok (word value, b')
    else if ltb value b.prev
    then panic
    else if ltb b.max_delta (value - b.prev)
    then panic
    else ok (word (value - b.prev), b')

-- Without a builder, a value asks for a schema update and is not appended. A dictionary gets the
-- value itself.
append_to : Column → DeltaBuilder → ℕ → Result ⊥ (Cell × DeltaBuilder)
unfolding append_plain
append_to absent b value = ok (nothing, record b { requests = suc b.requests })
append_to plain b value = append_plain b value
append_to dictionary b value = ok (word value, record b { len = suc b.len })

unfoldable pub append : DeltaBuilder → ℕ → Result ⊥ (Cell × DeltaBuilder)
unfolding append_to
append b value = append_to b.column b value

append_null_to : Column → DeltaBuilder → Cell × DeltaBuilder
append_null_to absent b = (nothing, b)
append_null_to plain b =
    (null, record b { len = suc b.len; prev = if b.len == 0 then 0 else b.prev })
append_null_to dictionary b =
    (null, record b { len = suc b.len; prev = if b.len == 0 then 0 else b.prev })

unfoldable pub append_null : DeltaBuilder → Cell × DeltaBuilder
unfolding append_null_to
append_null b = append_null_to b.column b

-- AttributesByDeltaID: the map of the id, and the new `lastID` of the store.
unfoldable pub attributes_by_delta_id {ℓ} : {M : Type ℓ} → ℕ → (ℕ → Option M) → ℕ → ℕ → Option M × ℕ
attributes_by_delta_id m by_id last_id id = let last = add_word m last_id id in (by_id last, last)

-- A builder that has written the ids below `next`, and a reader that stands at `last`.
pub record InStep (b : DeltaBuilder) (next last : ℕ) : Type 0 where
  pub column : b.column ≡ plain
  pub max_delta : b.max_delta ≡ 1
  pub first : b.len ≡ 0 → (next ≡ 0) × (last ≡ 0)
  pub later : 0 < b.len → b.prev ≡ last
  pub lower : last ≤ next
  pub upper : next ≤ suc last

-- The delta that `append` writes for the next id.
pub delta_of : DeltaBuilder → ℕ → ℕ
delta_of b next = if b.len == 0 then next else next - b.prev

pub advanced : DeltaBuilder → ℕ → DeltaBuilder
advanced b next = record b { len = suc b.len; prev = next }

-- Writing the next id does not panic.
pub append-ok :
    (b : DeltaBuilder) (next last : ℕ)
    → InStep b next last
    → append b next ≡ ok (word (delta_of b next), advanced b next)
unfolding append delta_of advanced
append-ok b next last v = ground arith

add_word-delta_of :
    (m : ℕ) (b : DeltaBuilder) (next last : ℕ)
    → InStep b next last
    → next < m
    → add_word m last (delta_of b next) ≡ next
unfolding delta_of
add_word-delta_of m b next last v h =
    ground (arith, add_word-eq_of_lt m last next, add_word-eq_of_lt m last (next - b.prev))

-- Reading the delta back gives the id.
pub attributes_by_delta_id-delta_of {ℓ} :
    {M : Type ℓ} (m : ℕ) (by_id : ℕ → Option M) (b : DeltaBuilder) (next last : ℕ)
    → InStep b next last
    → next < m
    → attributes_by_delta_id m by_id last (delta_of b next) ≡ (by_id next, next)
unfolding attributes_by_delta_id
attributes_by_delta_id-delta_of m by_id b next last v h = rw (add_word-delta_of m b next last v h)

pub advanced-InStep :
    (b : DeltaBuilder) (next last : ℕ)
    → InStep b next last
    → InStep (advanced b next) (suc next) next
unfolding advanced
advanced-InStep b next last v = ground arith

pub append_null-InStep :
    (b : DeltaBuilder) (next last : ℕ) → InStep b next last → InStep (append_null b).1 next last
unfolding append_null
append_null-InStep b next last v = ground arith

pub append_null-cell :
    (b : DeltaBuilder) (next last : ℕ) → InStep b next last → (append_null b).0 ≡ null
unfolding append_null
append_null-cell b next last v = ground arith
