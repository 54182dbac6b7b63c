-- ===== src/Receive/Statuses.antt =====
-- The stream of the receiver: anyStream and processRecords of
-- collector/gen/receiver/otlpreceiver/internal/arrow/arrow.go, and what the exporter makes of its
-- statuses.
use otel_arrow_adapter.Base.{
  ℕ, ◌⊎◌, inl, inr, Bool, true, false, ◌||◌, Option, none, some, List, [], ◌∷◌, if◌then◌else◌, Str,
}
use otel_arrow_adapter.Receive.Headers.{Context as HeaderContext, HeaderReceiver, combine_headers}
use otel_arrow_adapter.Export.Waiters.{StatusMessage, unavailable, invalid_argument}

pub data PayloadType : Type 0 where
  metrics logs spans other_payload : PayloadType

pub record Batch (Content : Type 0) : Type 0 where
  pub id : ℕ
  pub headers : List ℕ
  pub payload_types : List PayloadType
  pub content : Content

-- What the receiver calls: the authentication, which passes the context on where there is none, and
-- which gets the headers too; whether a pipeline for the payload is there; MetricsFrom, LogsFrom and TracesFrom
-- of the Arrow consumer, with its state; the next consumer; and consumererror.IsPermanent.
pub record Services (Context Consumer Content Item Error : Type 0) : Type 0 where
  pub authenticate : HeaderContext → Option (List (Str × List Str)) → Error ⊎ Context
  pub has_pipeline : PayloadType → Bool
  pub convert : PayloadType → Consumer → Content → Option (List Item) × Consumer
  pub consume : Context → Item → Option Error
  pub is_permanent : Error → Bool

-- The errors of a batch; `refused` has those of the next consumer.
pub data Failure (Error : Type 0) : Type 0 where
  unimplemented unrecognized bad_data : Failure Error
  unauthenticated : Error → Failure Error
  refused : Error → List Error → Failure Error

module _ {Context Consumer Content Item Error : Type 0}
    (services : Services Context Consumer Content Item Error) where
  unfoldable pub consume_all : Context → List Item → List Error
  consume_all ctx [] = []
  consume_all ctx (item ∷ items) =
      let rest = consume_all ctx items in
      elim (services.consume ctx item) [ none ↦ rest | some e ↦ e ∷ rest ]

  abbrev failure_of : List Error → Option (Failure Error)
  failure_of [] = none
  failure_of (e ∷ errors) = some (refused e errors)

  -- The three cases of processRecords.
  unfoldable pub convert_and_consume :
      Context → PayloadType → Consumer → Content → Option (Failure Error) × Consumer
  unfolding consume_all
  convert_and_consume ctx type c content =
      if services.has_pipeline type
      then (let (items, c') = services.convert type c content in
          elim items [
            | none ↦ (some bad_data, c')
            | some list ↦ (failure_of (consume_all ctx list), c')
          ])
      else (some unimplemented, c)

  unfoldable pub process_records :
      Context → Consumer → Batch Content → Option (Failure Error) × Consumer
  unfolding convert_and_consume
  process_records ctx c batch = elim batch.payload_types [
    | [] ↦ (none, c)
    | type ∷ types ↦ elim type [
      | metrics ↦ convert_and_consume ctx metrics c batch.content
      | logs ↦ convert_and_consume ctx logs c batch.content
      | spans ↦ convert_and_consume ctx spans c batch.content
      | other_payload ↦ (some unrecognized, c)
    ]
  ]

  unfoldable pub any_permanent : List Error → Bool
  any_permanent [] = false
  any_permanent (e ∷ errors) = services.is_permanent e || any_permanent errors

  -- consumererror.IsPermanent on what processRecords and Authenticate return: NewPermanent marks the
  -- failed conversion, and multierr has a permanent error if one of its errors is permanent.
  unfoldable pub is_permanent_failure : Failure Error → Bool
  unfolding any_permanent
  is_permanent_failure unimplemented = false
  is_permanent_failure unrecognized = false
  is_permanent_failure bad_data = true
  is_permanent_failure (unauthenticated e) = services.is_permanent e
  is_permanent_failure (refused e errors) = any_permanent (e ∷ errors)

  unfoldable pub status_for : ℕ → Option (Failure Error) → StatusMessage
  unfolding is_permanent_failure
  status_for id none = record { batch_id = id; is_ok = true; error_code = unavailable }
  status_for id (some f) = record {
    batch_id = id;
    is_ok = false;
    error_code = if is_permanent_failure f then invalid_argument else unavailable;
  }

  unfoldable pub process_batch :
      HeaderContext
      → Option (List (Str × List Str))
      → Consumer
      → Batch Content
      → Option (Failure Error) × Consumer
  unfolding process_records
  process_batch ctx auth_hdrs c batch = elim (services.authenticate ctx auth_hdrs) [
    | inl e ↦ (some (unauthenticated e), c)
    | inr ctx' ↦ process_records ctx' c batch
  ]

  -- The loop of anyStream: the batches that Recv gives before its error, each with the success of
  -- the Send that answers it. `write` is the hpack decoder. The result are the statuses that were
  -- sent: headers that cannot be combined, and a failing Send, end the stream.
  unfoldable pub any_stream :
      {Decoder : Type 0}
      → (Decoder → List ℕ → Option (List (Str × Str)) × Decoder)
      → (Str → Str)
      → HeaderReceiver Decoder
      → Consumer
      → List (Batch Content × Bool)
      → List StatusMessage
  unfolding process_batch status_for combine_headers
  any_stream write to_lower h c [] = []
  any_stream write to_lower h c ((batch, sent) ∷ events) =
      elim (combine_headers write to_lower h batch.headers).0 [
        | none ↦ []
        | some (ctx, auth_hdrs) ↦
            let result = process_batch ctx auth_hdrs c batch in
            let rest =
              any_stream write to_lower (combine_headers write to_lower h batch.headers).1 result.1
                events in
            status_for batch.id result.0 ∷ (if sent then rest else [])
      ]
