-- ===== src/Transport/Consumer.antt =====
-- Consumer.Consume of pkg/otel/arrow_record/consumer.go.
use mathlib.Core.Option
use otel_arrow_adapter.Base.{
  ℕ, Option, none, some, List, [], ◌∷◌, ◌==◌, if◌then◌else◌, Result, ok, err, panic, ◌>>=◌,
}
use otel_arrow_adapter.Transport.Ipc.{Ipc, RecordMessage, ArrowPayload, BatchArrowRecords}

module _ (ipc : Ipc) where
  -- The buffer `bufReader` is filled with each payload and not read after it.
  pub record StreamConsumer : Type 0 where
    pub ipc_reader : Option ipc.Reader
    pub payload_type : ℕ

  -- The map `streamConsumers` of a Consumer.
  unfoldable pub find_consumer : ℕ → List (ℕ × StreamConsumer) → Option StreamConsumer
  find_consumer id [] = none
  find_consumer id ((i, sc) ∷ scs) =
      let rest = find_consumer id scs in if i == id then some sc else rest

  unfoldable pub put_consumer :
      ℕ → StreamConsumer → List (ℕ × StreamConsumer) → List (ℕ × StreamConsumer)
  put_consumer id new [] = (id, new) ∷ []
  put_consumer id new ((i, sc) ∷ scs) =
      let rest = put_consumer id new scs in if i == id then (id, new) ∷ scs else (i, sc) ∷ rest

  -- The cleanup. `Release` of a nil reader panics; the reader is nil after a failed NewReader.
  unfoldable pub release_consumers :
      ℕ → List (ℕ × StreamConsumer) → Result ⊥ (List (ℕ × StreamConsumer))
  release_consumers type [] = ok []
  release_consumers type ((i, sc) ∷ scs) =
      let rest = release_consumers type scs in
      if sc.payload_type == type
      then elim sc.ipc_reader [ none ↦ panic | some r ↦ rest ]
      else rest >>= λ left. ok ((i, sc) ∷ left)

  -- Next and Record: a reader without a record adds no message.
  next_message :
      List (ℕ × StreamConsumer)
      → ℕ
      → ArrowPayload
      → ℕ
      → ipc.Reader
      → List ℕ
      → Option (RecordMessage ipc) × List (ℕ × StreamConsumer)
  next_message scs batch_id payload type r bytes =
      let (rec, r') = ipc.next r bytes in
      (
        Option.map
            (λ message_record. record {
              batch_id = batch_id;
              sub_stream_id = [];
              payload_type = payload.payload_type;
              message_record = message_record;
            })
            rec,
        put_consumer payload.sub_stream_id (record { ipc_reader = some r'; payload_type = type })
            scs,
      )

  -- From the reset of the buffer on. `err` is a failed NewReader.
  unfoldable pub read_payload :
      List (ℕ × StreamConsumer)
      → ℕ
      → StreamConsumer
      → ArrowPayload
      → Result (List (ℕ × StreamConsumer)) (Option (RecordMessage ipc) × List (ℕ × StreamConsumer))
  unfolding next_message
  read_payload scs batch_id sc payload = elim sc.ipc_reader [
    | some r ↦ ok (next_message scs batch_id payload sc.payload_type r payload.bytes)
    | none ↦ elim (ipc.new_reader payload.bytes) [
      | none ↦ err (put_consumer payload.sub_stream_id sc scs)
      | some opened ↦ ok (next_message scs batch_id payload sc.payload_type opened.0 opened.1)
    ]
  ]

  -- The body of Consume's loop.
  unfoldable pub consume_payload :
      List (ℕ × StreamConsumer)
      → ℕ
      → ArrowPayload
      → Result (List (ℕ × StreamConsumer)) (Option (RecordMessage ipc) × List (ℕ × StreamConsumer))
  unfolding read_payload
  consume_payload scs batch_id payload =
      let sc : StreamConsumer = record { ipc_reader = none; payload_type = payload.payload_type } in
      elim (find_consumer payload.sub_stream_id scs) [
        | some found ↦ read_payload scs batch_id found payload
        | none ↦ elim (release_consumers payload.payload_type scs) [
          | panic ↦ panic
          | err impossible ↦ panic
          | ok left ↦ read_payload left batch_id sc payload
        ]
      ]

  with_message : Option (RecordMessage ipc) → List (RecordMessage ipc) → List (RecordMessage ipc)
  with_message none ibes = ibes
  with_message (some rm) ibes = rm ∷ ibes

  -- Consume, over the payloads of a batch.
  unfoldable pub consume_payloads :
      List (ℕ × StreamConsumer)
      → ℕ
      → List ArrowPayload
      → Result (List (ℕ × StreamConsumer)) (List (RecordMessage ipc) × List (ℕ × StreamConsumer))
  unfolding with_message
  consume_payloads scs batch_id [] = ok ([], scs)
  consume_payloads scs batch_id (payload ∷ payloads) =
      consume_payload scs batch_id payload >>= λ now.
      consume_payloads now.1 batch_id payloads >>= λ rest. ok (with_message now.0 rest.0, rest.1)

  unfoldable pub consume :
      List (ℕ × StreamConsumer)
      → BatchArrowRecords
      → Result (List (ℕ × StreamConsumer)) (List (RecordMessage ipc) × List (ℕ × StreamConsumer))
  consume scs bar = consume_payloads scs bar.batch_id bar.arrow_payloads
