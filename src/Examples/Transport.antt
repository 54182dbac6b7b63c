-- ===== src/Examples/Transport.antt =====
-- Batches of records between a producer and a consumer at concrete values.
use otel_arrow_adapter.Base.{
  ℕ, zero, suc, ◌+◌, ◌≤◌, ◌≡◌, refl, Bool, true, false, Option, none, some, List, [], ◌∷◌, map,
  arith, ◌==◌, if◌then◌else◌, length, u64_mod, add_word, Str, Result, ok, err, panic,
}
use otel_arrow_adapter.Transport.Batches.{
  messages_of, exchange, numbered, no_batches, next_batch, exchange-delivers,
}
use otel_arrow_adapter.Transport.Ipc.{Ipc, IpcLaws, RecordMessage, ArrowPayload, BatchArrowRecords}
use otel_arrow_adapter.Transport.Producer.{Producer, new_producer, produce}
use otel_arrow_adapter.Transport.Consumer.{
  StreamConsumer, find_consumer, put_consumer, release_consumers, read_payload, consume_payload,
  consume,
}
use otel_arrow_adapter.Transport.Delivery.{InSync, received}
use otel_arrow_adapter.Transport.RoundTrip.{
  no_messages, next_message, produce-consume, new_producer-InSync,
}
use otel_arrow_adapter.Transport.Faults.{refused_payload_panics}
use otel_arrow_adapter.Transport.Build.{
  Attempt, not_up_to_date, built, build, not_stale, stale, after, build-built, Ended, build-Ended,
}

-- An IPC format: a record is a schema and a value, a stream starts with its schema, and each record
-- is one byte after it. A writer takes only records of its schema.
put_record : ℕ × Bool → ℕ × ℕ → Bool × List ℕ × (ℕ × Bool)
put_record (schema, started) (s, value) =
    if schema == s
    then (true, if started then value ∷ [] else schema ∷ value ∷ [], (schema, true))
    else (false, [], (schema, started))

open_reader : List ℕ → Option (ℕ × List ℕ)
open_reader [] = none
open_reader (schema ∷ rest) = some (schema, rest)

next_record : ℕ → List ℕ → Option (ℕ × ℕ) × ℕ
next_record schema [] = (none, schema)
next_record schema (value ∷ rest) = (some (schema, value), schema)

abbrev bytes_ipc : Ipc
bytes_ipc = record {
  Writer = ℕ × Bool;
  Reader = ℕ;
  Schema = ℕ;
  Record = ℕ × ℕ;
  schema = λ rec. rec.0;
  new_writer = λ schema. (schema, false);
  write = put_record;
  close = λ w. true;
  new_reader = open_reader;
  next = next_record;
}

bytes_ipc-laws : IpcLaws bytes_ipc
unfolding put_record open_reader next_record
bytes_ipc-laws = record {
  Follows = λ s w r. (w ≡ (s, true)) × (r ≡ s);
  closes = λ w. refl;
  first = λ rec. (
    record { bytes = rec.0 ∷ rec.1 ∷ []; w' = (rec.0, true); written = ground arith },
    rec.0,
    rec.1 ∷ [],
    rec.0,
    refl,
    refl,
    (refl, refl),
  );
  later = λ w r rec f. (
    record { bytes = rec.1 ∷ []; w' = (rec.0, true); written = ground (arith, f.0) },
    rec.0,
    ground (arith, f.1),
    (refl, refl),
  );
}

-- The schema id is as long as the number of its schema.
abbrev schema_of : Str → ℕ
schema_of id = length id

abbrev message : Str → ℕ → RecordMessage bytes_ipc
message id value = record {
  batch_id = 0;
  sub_stream_id = id;
  payload_type = 1;
  message_record = (length id, value);
}

-- The schema changes with the third message.
abbrev messages : List (RecordMessage bytes_ipc)
messages = message (97 ∷ []) 5 ∷ message (97 ∷ []) 6 ∷ message (97 ∷ 98 ∷ []) 7 ∷ []

produce-consume_example :
    (bar : BatchArrowRecords) × (p' : Producer bytes_ipc) × (scs' : List
      (ℕ × StreamConsumer bytes_ipc))
    × (produce bytes_ipc (new_producer bytes_ipc) messages ≡ (some bar, p'))
    × (consume bytes_ipc [] bar
        ≡ ok (
          map
              (received bytes_ipc bytes_ipc-laws schema_of (new_producer bytes_ipc).batch_id)
              messages,
          scs',
        ))
    × InSync bytes_ipc bytes_ipc-laws schema_of p' scs'
    × (p'.next_sub_stream_id ≤ (new_producer bytes_ipc).next_sub_stream_id + length messages)
    × (p'.batch_id ≡ add_word u64_mod (new_producer bytes_ipc).batch_id 1)
unfolding new_producer
produce-consume_example =
    produce-consume bytes_ipc bytes_ipc-laws schema_of (new_producer bytes_ipc) [] messages
      (new_producer-InSync bytes_ipc bytes_ipc-laws schema_of)
      (next_message refl (next_message refl (next_message refl no_messages))) (omega arith)

exchange-delivers_example :
    exchange bytes_ipc (new_producer bytes_ipc) [] (messages ∷ [] ∷ messages ∷ [])
    ≡ some (
        numbered bytes_ipc bytes_ipc-laws schema_of
          (new_producer bytes_ipc).batch_id
          (messages ∷ [] ∷ messages ∷ []))
unfolding new_producer messages_of
exchange-delivers_example =
    exchange-delivers bytes_ipc bytes_ipc-laws schema_of (new_producer bytes_ipc) []
      (messages ∷ [] ∷ messages ∷ []) (new_producer-InSync bytes_ipc bytes_ipc-laws schema_of)
      (next_batch (next_message refl (next_message refl (next_message refl no_messages))) (
        next_batch no_messages (
          next_batch (next_message refl (next_message refl (next_message refl no_messages)))
            no_batches)))
      (omega arith) (omega arith)

-- An empty payload is no stream.
abbrev bad : ArrowPayload
bad = record { sub_stream_id = 0; payload_type = 1; bytes = [] }

abbrev next : ArrowPayload
next = record { sub_stream_id = 1; payload_type = 1; bytes = 1 ∷ 5 ∷ [] }

abbrev left : List (ℕ × StreamConsumer bytes_ipc)
left = (0, record { ipc_reader = none; payload_type = 1 }) ∷ []

bad_refused : consume_payload bytes_ipc [] 0 bad ≡ err left
unfolding consume_payload find_consumer release_consumers read_payload put_consumer open_reader
bad_refused = refl

refused_payload_panics_example : consume_payload bytes_ipc left 1 next ≡ panic
unfolding find_consumer
refused_payload_panics_example =
    refused_payload_panics bytes_ipc [] left 0 1 bad next refl bad_refused refl refl

-- The schema is up to date after `n` attempts.
attempt : ℕ → Attempt ℕ ℕ × ℕ
attempt zero = (built 7, 0)
attempt (suc n) = (not_up_to_date, n)

build-built_example : build attempt 2 ≡ some (ok 7, (attempt (after attempt 2 2)).1)
unfolding attempt
build-built_example =
    build-built attempt 2 2 7 (omega arith) (stale refl (stale refl not_stale)) refl

sixth_update_panics : build attempt 9 ≡ some (panic, 3)
unfolding build attempt
sixth_update_panics = refl

build-Ended_example : (out : Result ℕ ℕ × ℕ) × (build attempt 9 ≡ some out) × Ended attempt 5 9 out
build-Ended_example = build-Ended attempt 9
