-- ===== src/Transport/RoundTrip.antt =====
-- A batch from Producer.Produce to Consumer.Consume (pkg/otel/arrow_record).
use otel_arrow_adapter.Base.{
  ℕ, ◌+◌, ◌≤◌, ◌<◌, ◌≡◌, refl, ◌∙◌, some, List, [], ◌∷◌, map, arith, length, u64_mod, add_word, Str,
  ok,
}
use otel_arrow_adapter.Transport.Ipc.{Ipc, IpcLaws, RecordMessage, ArrowPayload, BatchArrowRecords}
use otel_arrow_adapter.Transport.Producer.{
  Producer, new_producer, produce_message, produce_messages, produce,
}
use otel_arrow_adapter.Transport.Consumer.{StreamConsumer, consume_payloads, consume}
use otel_arrow_adapter.Transport.Mirror.{producers_of, consumers_of, nothing_open}
use otel_arrow_adapter.Transport.Delivery.{InSync, received, Passed}
use otel_arrow_adapter.Transport.Messages.{pass_message}

module _ (ipc : Ipc) (laws : IpcLaws ipc) (schema_of : Str → ipc.Schema) where
  -- The messages carry records of the schema that their schema id names.
  pub data Agree : List (RecordMessage ipc) → Type 0 where
    no_messages : Agree []
    next_message :
        {rm : RecordMessage ipc}
        → {rms : List (RecordMessage ipc)}
        → ipc.schema rm.message_record ≡ schema_of rm.sub_stream_id
        → Agree rms
        → Agree (rm ∷ rms)

  record PassedAll (p : Producer ipc) (scs : List (ℕ × StreamConsumer ipc)) (batch_id : ℕ)
      (rms : List (RecordMessage ipc)) : Type 0 where
    payloads : List ArrowPayload
    p' : Producer ipc
    scs' : List (ℕ × StreamConsumer ipc)
    produced : produce_messages ipc p rms ≡ (some payloads, p')
    consumed :
        consume_payloads ipc scs batch_id payloads
        ≡ ok (map (received ipc laws schema_of batch_id) rms, scs')
    sync : InSync ipc laws schema_of p' scs'
    next : p'.next_sub_stream_id ≤ p.next_sub_stream_id + length rms
    same_batch : p'.batch_id ≡ p.batch_id

  produce_messages-cons :
      (p : Producer ipc) (rm : RecordMessage ipc) (rms : List (RecordMessage ipc))
      {payload : ArrowPayload} {payloads : List ArrowPayload} {p' p'' : Producer ipc}
      → produce_message ipc p rm ≡ (some payload, p')
      → produce_messages ipc p' rms ≡ (some payloads, p'')
      → produce_messages ipc p (rm ∷ rms) ≡ (some (payload ∷ payloads), p'')
  unfolding produce_messages
  produce_messages-cons p rm rms now rest = ground (arith, now, rest)

  pass_cons :
      (p : Producer ipc) (scs : List (ℕ × StreamConsumer ipc)) (batch_id : ℕ)
      (rm : RecordMessage ipc) (rms : List (RecordMessage ipc))
      (now : Passed ipc laws schema_of p scs batch_id rm)
      → PassedAll now.p' now.scs' batch_id rms
      → PassedAll p scs batch_id (rm ∷ rms)
  unfolding produce_messages consume_payloads
  pass_cons p scs batch_id rm rms now rest = record {
    payloads = now.payload ∷ rest.payloads;
    p' = rest.p';
    scs' = rest.scs';
    produced = produce_messages-cons p rm rms now.produced rest.produced;
    consumed = rw (now.consumed, consume_payloads) (rw rest.consumed refl);
    sync = rest.sync;
    next = omega (arith, now.next, rest.next);
    same_batch = rest.same_batch ∙ now.same_batch;
  }

  pass_messages :
      (p : Producer ipc) (scs : List (ℕ × StreamConsumer ipc)) (batch_id : ℕ)
      (rms : List (RecordMessage ipc))
      → InSync ipc laws schema_of p scs
      → Agree rms
      → p.next_sub_stream_id + length rms < u64_mod
      → PassedAll p scs batch_id rms
  unfolding produce_messages consume_payloads
  pass_messages p scs batch_id [] sync no_messages room = record {
    payloads = [];
    p' = p;
    scs' = scs;
    produced = refl;
    consumed = refl;
    sync = sync;
    next = omega arith;
    same_batch = refl;
  }
  pass_messages p scs batch_id (rm ∷ rms) sync (next_message schema agree) room =
      let now = pass_message ipc laws schema_of p scs batch_id rm sync schema (omega arith) in
      pass_cons p scs batch_id rm rms now
        (pass_messages now.p' now.scs' batch_id rms now.sync agree (omega (arith, now.next)))

  produce-batch :
      (p : Producer ipc) (rms : List (RecordMessage ipc)) {payloads : List ArrowPayload}
      {p' : Producer ipc}
      → produce_messages ipc p rms ≡ (some payloads, p')
      → p'.batch_id ≡ p.batch_id
      → produce ipc p rms ≡ (
        some (record { batch_id = p.batch_id; arrow_payloads = payloads }),
        record p' { batch_id = add_word u64_mod p.batch_id 1 },
      )
  unfolding produce
  produce-batch p rms all same = ground (arith, all, same)

  -- From a producer and a consumer that are in sync, a batch goes through: Produce succeeds, Consume
  -- of what it gives succeeds with the same records and payload types in the same order and with the
  -- producer's batch id, which then grows by one, the two are in sync again, and no more sub-stream
  -- numbers are used than there are messages. Each message's record has the schema that
  -- its schema id names, the sub-stream numbers do not run out, and the IPC format keeps its laws.
  pub produce-consume :
      (p : Producer ipc) (scs : List (ℕ × StreamConsumer ipc)) (rms : List (RecordMessage ipc))
      → InSync ipc laws schema_of p scs
      → Agree rms
      → p.next_sub_stream_id + length rms < u64_mod
      → (bar : BatchArrowRecords) × (p' : Producer ipc) × (scs' : List (ℕ × StreamConsumer ipc))
        × (produce ipc p rms ≡ (some bar, p'))
        × (consume ipc scs bar ≡ ok (map (received ipc laws schema_of p.batch_id) rms, scs'))
        × InSync ipc laws schema_of p' scs'
        × (p'.next_sub_stream_id ≤ p.next_sub_stream_id + length rms)
        × (p'.batch_id ≡ add_word u64_mod p.batch_id 1)
  unfolding produce consume
  produce-consume p scs rms sync agree room =
      let all = pass_messages p scs p.batch_id rms sync agree room in
      (
        record { batch_id = p.batch_id; arrow_payloads = all.payloads },
        record all.p' { batch_id = add_word u64_mod p.batch_id 1 },
        all.scs',
        produce-batch p rms all.produced all.same_batch,
        all.consumed,
        record {
          slots = all.sync.slots;
          producers = all.sync.producers;
          consumers = all.sync.consumers;
          linked = all.sync.linked;
        },
        all.next,
        refl,
      )

  pub new_producer-InSync : InSync ipc laws schema_of (new_producer ipc) []
  unfolding new_producer producers_of consumers_of
  new_producer-InSync = record {
    slots = [];
    producers = refl;
    consumers = refl;
    linked = nothing_open;
  }
