-- ===== src/Transport/Producer.antt =====
-- Producer.Produce of pkg/otel/arrow_record/producer.go.
use mathlib.Core.Option
use otel_arrow_adapter.Base.{
  ℕ, suc, ◌+◌, Bool, true, false, Option, none, some, List, [], ◌∷◌, ◌++◌, ◌==◌, if◌then◌else◌,
  u64_mod, add_word, Str, str_eq,
}
use otel_arrow_adapter.Transport.Ipc.{Ipc, RecordMessage, ArrowPayload, BatchArrowRecords}

module _ (ipc : Ipc) where
  -- `ipc_writer` is nil until the first message; the buffer `output` is what the writer has put
  -- into it since it was reset. `last_production` and `schema` are only shown.
  pub record StreamProducer : Type 0 where
    pub output : List ℕ
    pub ipc_writer : Option ipc.Writer
    pub sub_stream_id : ℕ
    pub payload_type : ℕ

  pub record Producer : Type 0 where
    pub stream_producers : List (Str × StreamProducer)
    pub next_sub_stream_id : ℕ
    pub batch_id : ℕ
    pub stream_producers_created : ℕ
    pub stream_producers_closed : ℕ

  unfoldable pub new_producer : Producer
  new_producer = record {
    stream_producers = [];
    next_sub_stream_id = 0;
    batch_id = 0;
    stream_producers_created = 0;
    stream_producers_closed = 0;
  }

  -- The map `streamProducers`.
  unfoldable pub find_producer : Str → List (Str × StreamProducer) → Option StreamProducer
  find_producer key [] = none
  find_producer key ((k, sp) ∷ sps) =
      let rest = find_producer key sps in if str_eq k key then some sp else rest

  unfoldable pub put_producer :
      Str → StreamProducer → List (Str × StreamProducer) → List (Str × StreamProducer)
  put_producer key new [] = (key, new) ∷ []
  put_producer key new ((k, sp) ∷ sps) =
      let rest = put_producer key new sps in
      if str_eq k key then (key, new) ∷ sps else (k, sp) ∷ rest

  -- A stream producer that stays in the map has a writer.
  closes : Option ipc.Writer → Bool
  closes none = true
  closes (some w) = ipc.close w

  -- The cleanup of the stream producers of a payload type: whether no Close failed, the map, and the
  -- count of those closed. The order of Go's range over a map is free; here it is the list's.
  unfoldable pub close_producers :
      ℕ → List (Str × StreamProducer) → Bool × List (Str × StreamProducer) × ℕ
  unfolding closes
  close_producers type [] = (true, [], 0)
  close_producers type ((k, sp) ∷ sps) =
      let rest = close_producers type sps in
      if sp.payload_type == type
      then if closes sp.ipc_writer then (rest.0, rest.1, suc rest.2) else (false, (k, sp) ∷ sps, 0)
      else (rest.0, (k, sp) ∷ rest.1, rest.2)

  opened : StreamProducer → RecordMessage ipc → ipc.Writer
  opened sp rm = elim sp.ipc_writer [
    | none ↦ ipc.new_writer (ipc.schema rm.message_record)
    | some w ↦ w
  ]

  -- From the lookup of the writer on: an error leaves what was put into the buffer there.
  unfoldable pub write_message :
      Producer → StreamProducer → RecordMessage ipc → Option ArrowPayload × Producer
  unfolding opened
  write_message p sp rm =
      let (success, bytes, w') = ipc.write (opened sp rm) rm.message_record in
      let kept =
        put_producer rm.sub_stream_id
          (record sp { ipc_writer = some w'; output = if success then [] else sp.output ++ bytes })
          p.stream_producers in
      let payload : ArrowPayload = record {
        sub_stream_id = sp.sub_stream_id;
        payload_type = rm.payload_type;
        bytes = sp.output ++ bytes;
      } in
      (if success then some payload else none, record p { stream_producers = kept })

  -- The message of a schema id without a stream producer.
  unfoldable pub create_producer : Producer → RecordMessage ipc → Option ArrowPayload × Producer
  unfolding write_message
  create_producer p rm =
      let (success, left, closed) = close_producers rm.payload_type p.stream_producers in
      let cleaned : Producer = record p {
        stream_producers = left;
        stream_producers_closed = p.stream_producers_closed + closed;
      } in
      let sp : StreamProducer = record {
        output = [];
        ipc_writer = none;
        sub_stream_id = p.next_sub_stream_id;
        payload_type = rm.payload_type;
      } in
      let made : Producer = record cleaned {
        stream_producers = put_producer rm.sub_stream_id sp left;
        next_sub_stream_id = add_word u64_mod p.next_sub_stream_id 1;
        stream_producers_created = suc p.stream_producers_created;
      } in
      if success then write_message made sp rm else (none, cleaned)

  -- The body of Produce's loop.
  unfoldable pub produce_message : Producer → RecordMessage ipc → Option ArrowPayload × Producer
  unfolding create_producer write_message
  produce_message p rm = elim (find_producer rm.sub_stream_id p.stream_producers) [
    | none ↦ create_producer p rm
    | some sp ↦ write_message p sp rm
  ]

  unfoldable pub produce_messages :
      Producer → List (RecordMessage ipc) → Option (List ArrowPayload) × Producer
  produce_messages p [] = (some [], p)
  produce_messages p (rm ∷ rms) =
      let (payload, p') = produce_message p rm in
      let rest = produce_messages p' rms in
      elim payload [
        | none ↦ (none, p')
        | some a ↦ (Option.map (λ payloads. a ∷ payloads) rest.0, rest.1)
      ]

  -- Produce: after an error there is no batch, and the batch id stays.
  unfoldable pub produce : Producer → List (RecordMessage ipc) → Option BatchArrowRecords × Producer
  produce p rms =
      let (payloads, p') = produce_messages p rms in
      elim payloads [
        | none ↦ (none, p')
        | some arrow_payloads ↦ (
          some (record { batch_id = p'.batch_id; arrow_payloads = arrow_payloads }),
          record p' { batch_id = add_word u64_mod p'.batch_id 1 },
        )
      ]
