-- ===== src/Receive/Answered.antt =====
-- What is answered to batches: the statuses of the receiver's stream (anyStream of
-- collector/gen/receiver/otlpreceiver/internal/arrow/arrow.go), and what the exporter makes of them
-- (processBatchStatus of collector/gen/exporter/otlpexporter/internal/arrow/stream.go).
use otel_arrow_adapter.Base.{
  ℕ, ◌≡◌, refl, ap, ◌∙◌, Str, inl, inr, Bool, true, Option, none, some, List, [], ◌∷◌,
  if◌then◌else◌, Bool-cases,
}
use mathlib.Core.Bool.{and-true}
use otel_arrow_adapter.Export.Waiters.{
  StatusMessage, Response, success, retriable, permanent, response_to, find_waiter, delete_waiter,
  process_batch_status, get_sender_channels, respond,
}
use otel_arrow_adapter.Receive.Headers.{Context as HeaderContext}
use otel_arrow_adapter.Receive.Statuses.{
  Batch, Services, Failure, is_permanent_failure, status_for, process_batch,
}

-- The exporter on a single status.
one_status :
    (s : StatusMessage) (waiters : List (ℕ × ℕ)) (ch : ℕ)
    → find_waiter s.batch_id waiters ≡ some ch
    → process_batch_status (s ∷ []) waiters
      ≡ ((ch, (response_to s).0) ∷ [], (response_to s).1, delete_waiter s.batch_id waiters)
unfolding process_batch_status get_sender_channels respond
one_status s waiters ch h =
    rw (process_batch_status, get_sender_channels, h)
      (ap (λ b. ((ch, (response_to s).0) ∷ [], b, delete_waiter s.batch_id waiters))
        (and-true (response_to s).1))

module _ {Decoder : Type 0} (write : Decoder → List ℕ → Option (List (Str × Str)) × Decoder) where
  -- The decoder after the headers of a batch, if it accepts them: there may be none.
  unfoldable pub decoded : Decoder → List ℕ → Option Decoder
  decoded d [] = some d
  decoded d (b ∷ bytes) = elim (write d (b ∷ bytes)).0 [
    | none ↦ none
    | some _ ↦ some (write d (b ∷ bytes)).1
  ]

  -- The batches that get an answer: those before the first whose headers the decoder refuses, up to
  -- the first whose answer cannot be sent.
  unfoldable pub answered : {Content : Type 0} → Decoder → List (Batch Content × Bool) → List ℕ
  unfolding decoded
  answered d [] = []
  answered d ((batch, sent) ∷ events) = elim (decoded d batch.headers) [
    | none ↦ []
    | some d' ↦ let rest = answered d' events in batch.id ∷ (if sent then rest else [])
  ]

module _ {Context Consumer Content Item Error : Type 0}
    (services : Services Context Consumer Content Item Error) where
  -- What the sender of a batch is told.
  unfoldable pub told : Option (Failure Error) → Response
  unfolding is_permanent_failure
  told none = success
  told (some f) = if is_permanent_failure services f then permanent else retriable

  response_to-status_for :
      (id : ℕ) (o : Option (Failure Error))
      → response_to (status_for services id o) ≡ (told o, true)
  unfolding response_to status_for told
  response_to-status_for id none = refl
  response_to-status_for id (some f) = elim (Bool-cases (is_permanent_failure services f)) [
    | inl e ↦ rw e refl
    | inr e ↦ rw e refl
  ]

  -- The exporter hands the receiver's answer to the sender that waits for the batch, which then waits no
  -- more: success where the batch was processed, a permanent error where it failed with one, and
  -- otherwise an error that may be retried. The stream goes on.
  pub process_batch_status-status_for :
      (ctx : HeaderContext) (auth_hdrs : Option (List (Str × List Str))) (c : Consumer)
      (batch : Batch Content) (waiters : List (ℕ × ℕ)) (ch : ℕ)
      → find_waiter batch.id waiters ≡ some ch
      → process_batch_status
          (status_for services batch.id (process_batch services ctx auth_hdrs c batch).0 ∷ [])
          waiters
        ≡ (
          (ch, told (process_batch services ctx auth_hdrs c batch).0) ∷ [],
          true,
          delete_waiter batch.id waiters,
        )
  unfolding status_for
  process_batch_status-status_for ctx auth_hdrs c batch waiters ch h =
      by_outcome (process_batch services ctx auth_hdrs c batch).0
    where
      by_outcome :
          (o : Option (Failure Error))
          → process_batch_status (status_for services batch.id o ∷ []) waiters
            ≡ ((ch, told o) ∷ [], true, delete_waiter batch.id waiters)
      by_outcome none =
          one_status (status_for services batch.id none) waiters ch h
          ∙ ap (λ r. ((ch, r.0) ∷ [], r.1, delete_waiter batch.id waiters))
              (response_to-status_for batch.id none)
      by_outcome (some f) =
          one_status (status_for services batch.id (some f)) waiters ch h
          ∙ ap (λ r. ((ch, r.0) ∷ [], r.1, delete_waiter batch.id waiters))
              (response_to-status_for batch.id (some f))
