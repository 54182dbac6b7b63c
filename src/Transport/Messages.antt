-- ===== src/Transport/Messages.antt =====
-- One message through Producer.Produce and Consumer.Consume (pkg/otel/arrow_record).
use otel_arrow_adapter.Base.{
  ℕ, suc, ◌+◌, ◌<◌, ◌≡◌, refl, sym, ap, ◌∙◌, subst, inl, inr, Option, none, some, List, [], ◌∷◌,
  arith, Option-cases, u64_mod, add_word, add_word-eq_of_lt, Str, str_eq_refl, Result, ok,
}
use otel_arrow_adapter.Transport.Ipc.{Ipc, IpcLaws, RecordMessage, ArrowPayload}
use otel_arrow_adapter.Transport.Producer.{
  StreamProducer, Producer, find_producer, put_producer, create_producer, produce_message,
}
use otel_arrow_adapter.Transport.Consumer.{
  StreamConsumer, find_consumer, put_consumer, release_consumers, read_payload, consume_payload,
}
use otel_arrow_adapter.Transport.Mirror.{
  Slot, producers_of, consumers_of, Linked, Put, Put-new, Found, find_producer-Found, Closed,
  close_producers-Closed, find_consumer-none, Other-next,
}
use otel_arrow_adapter.Transport.Delivery.{
  InSync, received, Delivered, Passed, deliver_later, deliver_first,
}

module _ (ipc : Ipc) (laws : IpcLaws ipc) (schema_of : Str → ipc.Schema) where
  -- The slots of a side-by-side state after a delivery.
  abbrev slot_after :
      (p : Producer ipc) (sp : StreamProducer ipc) (rm : RecordMessage ipc)
      (scs : List (ℕ × StreamConsumer ipc)) (sc : StreamConsumer ipc) (batch_id : ℕ)
      → Delivered ipc laws schema_of p sp rm scs sc batch_id
      → Slot ipc laws schema_of
  slot_after p sp rm scs sc batch_id d = record { key = rm.sub_stream_id; sp = d.sp'; sc = d.sc' }

  put_producer_twice :
      (key : Str) (a b : StreamProducer ipc) (sps : List (Str × StreamProducer ipc))
      → put_producer ipc key a (put_producer ipc key b sps) ≡ put_producer ipc key a sps
  unfolding put_producer
  put_producer_twice key a b [] = ground (arith, str_eq_refl key)
  put_producer_twice key a b ((k, sp) ∷ sps) =
      ground (arith, str_eq_refl key, put_producer_twice key a b sps)

  pass-Found :
      (p : Producer ipc) (scs : List (ℕ × StreamConsumer ipc)) (batch_id : ℕ)
      (rm : RecordMessage ipc) (sp : StreamProducer ipc) (sync : InSync ipc laws schema_of p scs)
      (found : Found ipc laws schema_of p.next_sub_stream_id rm.sub_stream_id sp sync.slots)
      (d : Delivered ipc laws schema_of p sp rm scs found.sc batch_id)
      → find_producer ipc rm.sub_stream_id p.stream_producers ≡ some sp
      → Put ipc laws schema_of p.next_sub_stream_id
          (slot_after p sp rm scs found.sc batch_id d)
          sync.slots
      → Passed ipc laws schema_of p scs batch_id rm
  unfolding produce_message consume_payload
  pass-Found p scs batch_id rm sp sync found d there put = record {
    payload = d.payload;
    p' = record p { stream_producers = put_producer ipc rm.sub_stream_id d.sp' p.stream_producers };
    scs' = put_consumer ipc sp.sub_stream_id d.sc' scs;
    produced = rw (there, produce_message) d.written;
    consumed =
        rw (d.payload_id, sync.consumers, found.found, consume_payload)
          (rw (sym sync.consumers) d.read);
    sync = record {
      slots = put.slots;
      producers = ap (put_producer ipc rm.sub_stream_id d.sp') sync.producers ∙ sym put.producers;
      consumers =
          ap (put_consumer ipc sp.sub_stream_id d.sc') sync.consumers
          ∙ ap (λ i. put_consumer ipc i d.sc' (consumers_of ipc laws schema_of sync.slots))
              (sym d.same_id)
          ∙ sym put.consumers;
      linked = put.linked;
    };
    next = omega arith;
    same_batch = refl;
  }

  -- A new stream producer, and the producer that holds it.
  abbrev fresh : Producer ipc → RecordMessage ipc → StreamProducer ipc
  fresh p rm = record {
    output = [];
    ipc_writer = none;
    sub_stream_id = p.next_sub_stream_id;
    payload_type = rm.payload_type;
  }

  abbrev made :
      Producer ipc → RecordMessage ipc → List (Str × StreamProducer ipc) → ℕ → Producer ipc
  made p rm left closed = record {
    stream_producers = put_producer ipc rm.sub_stream_id (fresh p rm) left;
    next_sub_stream_id = add_word u64_mod p.next_sub_stream_id 1;
    batch_id = p.batch_id;
    stream_producers_created = suc p.stream_producers_created;
    stream_producers_closed = p.stream_producers_closed + closed;
  }

  next_id : (n : ℕ) → suc n < u64_mod → add_word u64_mod n 1 ≡ suc n
  next_id n h = omega (arith, add_word-eq_of_lt u64_mod n 1)

  consume_new :
      (scs left : List (ℕ × StreamConsumer ipc)) (batch_id : ℕ) (payload : ArrowPayload)
      {out : Result
        (List (ℕ × StreamConsumer ipc))
        (Option (RecordMessage ipc) × List (ℕ × StreamConsumer ipc))}
      → find_consumer ipc payload.sub_stream_id scs ≡ none
      → release_consumers ipc payload.payload_type scs ≡ ok left
      → read_payload ipc left batch_id
          (record { ipc_reader = none; payload_type = payload.payload_type })
          payload
        ≡ out
      → consume_payload ipc scs batch_id payload ≡ out
  unfolding consume_payload
  consume_new scs left batch_id payload absent released read =
      rw (absent, consume_payload) (rw released read)

  pass_new :
      (p : Producer ipc) (scs : List (ℕ × StreamConsumer ipc)) (batch_id : ℕ)
      (rm : RecordMessage ipc) (sync : InSync ipc laws schema_of p scs)
      (c : Closed ipc laws schema_of p.next_sub_stream_id rm.payload_type sync.slots)
      (d : Delivered ipc laws schema_of
        (made p rm (producers_of ipc laws schema_of c.slots) c.count)
        (fresh p rm)
        rm
        (consumers_of ipc laws schema_of c.slots)
        (record { ipc_reader = none; payload_type = rm.payload_type })
        batch_id)
      → find_producer ipc rm.sub_stream_id p.stream_producers ≡ none
      → suc p.next_sub_stream_id < u64_mod
      → Put ipc laws schema_of
          (suc p.next_sub_stream_id)
          (record { key = rm.sub_stream_id; sp = d.sp'; sc = d.sc' })
          c.slots
      → Passed ipc laws schema_of p scs batch_id rm
  unfolding produce_message create_producer consume_payload
  pass_new p scs batch_id rm sync c d absent room put = record {
    payload = d.payload;
    p' = record (made p rm (producers_of ipc laws schema_of c.slots) c.count) {
      stream_producers = put_producer ipc rm.sub_stream_id d.sp' (
          put_producer ipc rm.sub_stream_id (fresh p rm) (producers_of ipc laws schema_of c.slots));
    };
    scs' = put_consumer ipc p.next_sub_stream_id d.sc' (consumers_of ipc laws schema_of c.slots);
    produced =
        rw (absent, produce_message) (rw (sync.producers, c.producers, create_producer) d.written);
    consumed =
        consume_new scs (consumers_of ipc laws schema_of c.slots) batch_id d.payload
          (subst (λ i. find_consumer ipc i scs ≡ none) (sym d.payload_id)
            (rw sync.consumers (
              find_consumer-none ipc laws schema_of p.next_sub_stream_id sync.slots
                (Other-next ipc laws schema_of p.next_sub_stream_id sync.slots sync.linked))))
          (rw (d.payload_type, sync.consumers) c.consumers)
          (subst
            (λ type.
              read_payload ipc (consumers_of ipc laws schema_of c.slots) batch_id
                (record { ipc_reader = none; payload_type = type }) d.payload
              ≡ ok (
                some (received ipc laws schema_of batch_id rm),
                put_consumer ipc p.next_sub_stream_id d.sc'
                    (consumers_of ipc laws schema_of c.slots),
              ))
            (sym d.payload_type) d.read);
    sync = record {
      slots = put.slots;
      producers =
          put_producer_twice rm.sub_stream_id d.sp' (fresh p rm)
            (producers_of ipc laws schema_of c.slots)
          ∙ sym put.producers;
      consumers =
          ap (λ i. put_consumer ipc i d.sc' (consumers_of ipc laws schema_of c.slots))
            (sym d.same_id)
          ∙ sym put.consumers;
      linked =
          subst (λ n. Linked ipc laws schema_of n put.slots)
            (sym (next_id p.next_sub_stream_id room)) put.linked;
    };
    next = omega (arith, next_id p.next_sub_stream_id room);
    same_batch = refl;
  }

  pub pass_message :
      (p : Producer ipc) (scs : List (ℕ × StreamConsumer ipc)) (batch_id : ℕ)
      (rm : RecordMessage ipc)
      → InSync ipc laws schema_of p scs
      → ipc.schema rm.message_record ≡ schema_of rm.sub_stream_id
      → suc p.next_sub_stream_id < u64_mod
      → Passed ipc laws schema_of p scs batch_id rm
  pass_message p scs batch_id rm sync schema room =
      elim (Option-cases (find_producer ipc rm.sub_stream_id p.stream_producers)) [
        | inr (sp, there) ↦
            let found =
              find_producer-Found ipc laws schema_of p.next_sub_stream_id rm.sub_stream_id sp
                sync.slots sync.linked
                (subst (λ sps. find_producer ipc rm.sub_stream_id sps ≡ some sp) sync.producers
                  there) in
            let d =
              deliver_later ipc laws schema_of p sp rm scs found.sc batch_id schema found.follows in
            pass-Found p scs batch_id rm sp sync found d there
              (found.replace (slot_after p sp rm scs found.sc batch_id d) refl d.same_id d.follows)
        | inl absent ↦
            let c =
              close_producers-Closed ipc laws schema_of p.next_sub_stream_id rm.payload_type
                sync.slots sync.linked in
            let d =
              deliver_first ipc laws schema_of
                (made p rm (producers_of ipc laws schema_of c.slots) c.count) p.next_sub_stream_id
                rm.payload_type rm (consumers_of ipc laws schema_of c.slots) batch_id schema in
            pass_new p scs batch_id rm sync c d absent room (
              Put-new ipc laws schema_of p.next_sub_stream_id
                (record { key = rm.sub_stream_id; sp = d.sp'; sc = d.sc' }) c.slots d.follows
                d.same_id c.linked
                (c.absent rm.sub_stream_id (
                  subst (λ sps. find_producer ipc rm.sub_stream_id sps ≡ none) sync.producers
                    absent)))
      ]
