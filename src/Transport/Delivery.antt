-- ===== src/Transport/Delivery.antt =====
-- One record from a stream producer to its stream consumer (pkg/otel/arrow_record).
use otel_arrow_adapter.Base.{ℕ, suc, ◌≤◌, ◌≡◌, refl, sym, subst, none, some, List, [], Str, ok}
use otel_arrow_adapter.Transport.Ipc.{Ipc, IpcLaws, RecordMessage, ArrowPayload}
use otel_arrow_adapter.Transport.Producer.{
  StreamProducer, Producer, put_producer, write_message, produce_message,
}
use otel_arrow_adapter.Transport.Consumer.{
  StreamConsumer, put_consumer, read_payload, consume_payload,
}
use otel_arrow_adapter.Transport.Mirror.{Slot, producers_of, consumers_of, Follows, Linked}

module _ (ipc : Ipc) (laws : IpcLaws ipc) (schema_of : Str → ipc.Schema) where
  -- A producer and the stream consumers of a consumer that has read all its batches.
  pub record InSync (p : Producer ipc) (scs : List (ℕ × StreamConsumer ipc)) : Type 0 where
    pub slots : List (Slot ipc laws schema_of)
    pub producers : p.stream_producers ≡ producers_of ipc laws schema_of slots
    pub consumers : scs ≡ consumers_of ipc laws schema_of slots
    pub linked : Linked ipc laws schema_of p.next_sub_stream_id slots

  -- The message that the consumer makes of a message.
  abbrev pub received : ℕ → RecordMessage ipc → RecordMessage ipc
  received batch_id rm = record {
    batch_id = batch_id;
    sub_stream_id = [];
    payload_type = rm.payload_type;
    message_record = rm.message_record;
  }

  -- A record is written to a stream producer, and read by the consumer of its sub-stream.
  pub record Delivered (p : Producer ipc) (sp : StreamProducer ipc) (rm : RecordMessage ipc)
      (scs : List (ℕ × StreamConsumer ipc)) (sc : StreamConsumer ipc) (batch_id : ℕ) : Type 0 where
    pub sp' : StreamProducer ipc
    pub sc' : StreamConsumer ipc
    pub payload : ArrowPayload
    pub same_id : sp'.sub_stream_id ≡ sp.sub_stream_id
    pub payload_id : payload.sub_stream_id ≡ sp.sub_stream_id
    pub payload_type : payload.payload_type ≡ rm.payload_type
    pub written : write_message ipc p sp rm ≡ (
      some payload,
      record p { stream_producers = put_producer ipc rm.sub_stream_id sp' p.stream_producers },
    )
    pub read :
        read_payload ipc scs batch_id sc payload
        ≡ ok (some (received batch_id rm), put_consumer ipc sp.sub_stream_id sc' scs)
    pub follows : Follows ipc laws schema_of (record { key = rm.sub_stream_id; sp = sp'; sc = sc' })

  pub deliver_later :
      (p : Producer ipc) (sp : StreamProducer ipc) (rm : RecordMessage ipc)
      (scs : List (ℕ × StreamConsumer ipc)) (sc : StreamConsumer ipc) (batch_id : ℕ)
      → ipc.schema rm.message_record ≡ schema_of rm.sub_stream_id
      → Follows ipc laws schema_of (record { key = rm.sub_stream_id; sp = sp; sc = sc })
      → Delivered p sp rm scs sc batch_id
  unfolding write_message read_payload
  deliver_later p sp rm scs sc batch_id schema f =
      let (out, r', next, f') =
        laws.later f.writer f.reader rm.message_record
          (subst (λ s. laws.Follows s f.writer f.reader) (sym schema) f.follows) in
      record {
        sp' = record sp { ipc_writer = some out.w'; output = [] };
        sc' = record { ipc_reader = some r'; payload_type = sc.payload_type };
        payload = record {
          sub_stream_id = sp.sub_stream_id;
          payload_type = rm.payload_type;
          bytes = out.bytes;
        };
        same_id = refl;
        payload_id = refl;
        payload_type = refl;
        written = rw (f.has_writer, f.flushed) (rw out.written refl);
        read = rw f.has_reader (rw next refl);
        follows = record {
          same_type = f.same_type;
          flushed = refl;
          writer = out.w';
          has_writer = refl;
          reader = r';
          has_reader = refl;
          follows = subst (λ s. laws.Follows s out.w' r') schema f';
        };
      }

  pub deliver_first :
      (p : Producer ipc) (id type : ℕ) (rm : RecordMessage ipc)
      (scs : List (ℕ × StreamConsumer ipc)) (batch_id : ℕ)
      → ipc.schema rm.message_record ≡ schema_of rm.sub_stream_id
      → Delivered p
          (record { output = []; ipc_writer = none; sub_stream_id = id; payload_type = type })
          rm
          scs
          (record { ipc_reader = none; payload_type = type })
          batch_id
  unfolding write_message read_payload
  deliver_first p id type rm scs batch_id schema =
      let (out, r, rest, r', opened, next, f') = laws.first rm.message_record in
      record {
        sp' = record {
          output = [];
          ipc_writer = some out.w';
          sub_stream_id = id;
          payload_type = type;
        };
        sc' = record { ipc_reader = some r'; payload_type = type };
        payload = record { sub_stream_id = id; payload_type = rm.payload_type; bytes = out.bytes };
        same_id = refl;
        payload_id = refl;
        payload_type = refl;
        written = rw out.written refl;
        read = rw (opened, read_payload) (rw next refl);
        follows = record {
          same_type = refl;
          flushed = refl;
          writer = out.w';
          has_writer = refl;
          reader = r';
          has_reader = refl;
          follows = subst (λ s. laws.Follows s out.w' r') schema f';
        };
      }

  -- One message goes through, and the two sides stay in sync.
  pub record Passed (p : Producer ipc) (scs : List (ℕ × StreamConsumer ipc)) (batch_id : ℕ)
      (rm : RecordMessage ipc) : Type 0 where
    pub payload : ArrowPayload
    pub p' : Producer ipc
    pub scs' : List (ℕ × StreamConsumer ipc)
    pub produced : produce_message ipc p rm ≡ (some payload, p')
    pub consumed : consume_payload ipc scs batch_id payload ≡ ok (some (received batch_id rm), scs')
    pub sync : InSync p' scs'
    pub next : p'.next_sub_stream_id ≤ suc p.next_sub_stream_id
    pub same_batch : p'.batch_id ≡ p.batch_id
