-- ===== src/Transport/Build.antt =====
-- The loops that build records again after a schema update: recordBuilder of
-- pkg/otel/arrow_record/producer.go, and the Build methods of the related records.
use otel_arrow_adapter.Base.{
  ℕ, zero, suc, ◌+◌, ◌≤◌, ◌<◌, ◌≡◌, refl, ◌⊎◌, inl, inr, Option, none, some, arith, ltb,
  if◌then◌else◌, Result, ok, err, panic,
}

-- What one attempt gives: a record, the error ErrSchemaNotUpToDate, or another error.
pub data Attempt (Error Record : Type 0) : Type 0 where
  not_up_to_date : Attempt Error Record
  built : Record → Attempt Error Record
  failed : Error → Attempt Error Record

module _ {Error Record State : Type 0} (attempt : State → Attempt Error Record × State) where
  -- The loop: each attempt starts from a reset of the related data. `updates` counts the attempts
  -- that found the schema not up to date; above five the code panics. `fuel` bounds the attempts,
  -- and `none` is the end of the fuel, which is no outcome of the code.
  again :
      (ℕ → State → Option (Result Error Record × State))
      → ℕ
      → State
      → Option (Result Error Record × State)
  again loop updates s = if ltb 5 (suc updates) then some (panic, s) else loop (suc updates) s

  build_loop : ℕ → ℕ → State → Option (Result Error Record × State)
  unfolding again
  build_loop zero updates s = none
  build_loop (suc fuel) updates s = elim (attempt s).0 [
    | built r ↦ some (ok r, (attempt s).1)
    | failed e ↦ some (err e, (attempt s).1)
    | not_up_to_date ↦ again (build_loop fuel) updates (attempt s).1
  ]

  unfoldable pub build : State → Option (Result Error Record × State)
  unfolding build_loop
  build s = build_loop 6 0 s

  -- The state after `n` attempts, all of which found the schema not up to date.
  abbrev pub after : ℕ → State → State
  after zero s = s
  after (suc n) s = after n (attempt s).1

  pub data Stale : ℕ → State → Type 0 where
    not_stale : {s : State} → Stale 0 s
    stale :
        {n : ℕ}
        → {s : State} → (attempt s).0 ≡ not_up_to_date
        → Stale n (attempt s).1
        → Stale (suc n) s

  build_loop-built :
      (fuel updates n : ℕ) (s : State) (r : Record)
      → updates + n ≤ 5
      → n < fuel
      → Stale n s
      → (attempt (after n s)).0 ≡ built r
      → build_loop fuel updates s ≡ some (ok r, (attempt (after n s)).1)
  unfolding build_loop again
  build_loop-built zero updates n s r h room st b = ground arith
  build_loop-built (suc fuel) updates zero s r h room st b = ground (arith, b)
  build_loop-built (suc fuel) updates (suc n) s r h room (stale now rest) b = ground (
    arith,
    now,
    build_loop-built fuel (suc updates) n (attempt s).1 r (omega arith) (omega arith) rest b,
  )

  -- With at most five attempts in a row that find the schema not up to date, the loop returns the
  -- record that the next attempt builds.
  pub build-built :
      (n : ℕ) (s : State) (r : Record)
      → n ≤ 5
      → Stale n s
      → (attempt (after n s)).0 ≡ built r
      → build s ≡ some (ok r, (attempt (after n s)).1)
  unfolding build
  build-built n s r h st b = build_loop-built 6 0 n s r (omega arith) (omega arith) st b

  -- An attempt either ends the loop or finds the schema not up to date.
  Attempt-cases :
      (a : Attempt Error Record)
      → (a ≡ not_up_to_date) ⊎ (((r : Record) × (a ≡ built r)) ⊎ ((e : Error) × (a ≡ failed e)))
  Attempt-cases not_up_to_date = inl refl
  Attempt-cases (built r) = inr (inl (r, refl))
  Attempt-cases (failed e) = inr (inr (e, refl))

  -- How the loop ends where it takes at most `k` attempts that find the schema not up to date: with
  -- the record or the error of the attempt after them, or by the panic after one more.
  pub data Ended (k : ℕ) (s : State) : Result Error Record × State → Type 0 where
    with_record :
        (n : ℕ) (r : Record)
        → n ≤ k
        → Stale n s
        → (attempt (after n s)).0 ≡ built r
        → Ended k s (ok r, (attempt (after n s)).1)
    with_error :
        (n : ℕ) (e : Error)
        → n ≤ k
        → Stale n s
        → (attempt (after n s)).0 ≡ failed e
        → Ended k s (err e, (attempt (after n s)).1)
    with_panic : Stale (suc k) s → Ended k s (panic, after (suc k) s)

  later-Ended :
      (k : ℕ) (s : State) (out : Result Error Record × State)
      → (attempt s).0 ≡ not_up_to_date
      → Ended k (attempt s).1 out
      → Ended (suc k) s out
  later-Ended k s _ now (with_record n r le st b) =
      with_record (suc n) r (omega arith) (stale now st) b
  later-Ended k s _ now (with_error n e le st f) =
      with_error (suc n) e (omega arith) (stale now st) f
  later-Ended k s _ now (with_panic st) = with_panic (stale now st)

  build_loop-Ended :
      (fuel updates k : ℕ) (s : State)
      → updates + k ≡ 5
      → k < fuel
      → (out : Result Error Record × State) × (build_loop fuel updates s ≡ some out) × Ended k s out
  unfolding build_loop again
  build_loop-Ended zero updates k s h room = absurd (omega arith)
  build_loop-Ended (suc fuel) updates zero s h room = elim (Attempt-cases (attempt s).0) [
    | inl e ↦ (_, ground (arith, e), with_panic (stale e not_stale))
    | inr (inl (r, e)) ↦ (_, ground (arith, e), with_record 0 r (omega arith) not_stale e)
    | inr (inr (x, e)) ↦ (_, ground (arith, e), with_error 0 x (omega arith) not_stale e)
  ]
  build_loop-Ended (suc fuel) updates (suc k) s h room = elim (Attempt-cases (attempt s).0) [
    | inl e ↦
        let (out, ends, how) =
          build_loop-Ended fuel (suc updates) k (attempt s).1 (omega arith) (omega arith) in
        (out, ground (arith, e, ends), later-Ended k s out e how)
    | inr (inl (r, e)) ↦ (_, ground (arith, e), with_record 0 r (omega arith) not_stale e)
    | inr (inr (x, e)) ↦ (_, ground (arith, e), with_error 0 x (omega arith) not_stale e)
  ]

  -- The loop always ends: with the record or the error of the first attempt that does not find the
  -- schema out of date, when at most five attempts before it did; otherwise in the panic of the
  -- code, in the state after six such attempts.
  pub build-Ended :
      (s : State) → (out : Result Error Record × State) × (build s ≡ some out) × Ended 5 s out
  unfolding build
  build-Ended s = build_loop-Ended 6 0 5 s (omega arith) (omega arith)
