-- ===== src/Transport/Faults.antt =====
-- Consumer.Consume of pkg/otel/arrow_record/consumer.go after a payload that NewReader refuses.
use otel_arrow_adapter.Base.{ℕ, ◌≡◌, refl, none, List, [], ◌∷◌, arith, Result, ok, err, panic}
use otel_arrow_adapter.Transport.Ipc.{Ipc, ArrowPayload}
use otel_arrow_adapter.Transport.Consumer.{
  StreamConsumer, find_consumer, put_consumer, release_consumers, read_payload, consume_payload,
}

module _ (ipc : Ipc) where
  release-put :
      (id type : ℕ) (scs : List (ℕ × StreamConsumer ipc))
      → release_consumers ipc type
          (put_consumer ipc id (record { ipc_reader = none; payload_type = type }) scs)
        ≡ panic
  unfolding release_consumers put_consumer
  release-put id type [] = ground arith
  release-put id type ((i, sc) ∷ scs) = ground (arith, release-put id type scs)

  refused-releases :
      (scs scs' : List (ℕ × StreamConsumer ipc)) (batch_id : ℕ) (bad : ArrowPayload)
      (r : Result ⊥ (List (ℕ × StreamConsumer ipc)))
      → release_consumers ipc bad.payload_type scs ≡ r
      → find_consumer ipc bad.sub_stream_id scs ≡ none
      → consume_payload ipc scs batch_id bad ≡ err scs'
      → release_consumers ipc bad.payload_type scs' ≡ panic
  unfolding consume_payload read_payload
  refused-releases scs scs' batch_id bad (ok left) h absent refused =
      ground (arith, release-put bad.sub_stream_id bad.payload_type left)
  refused-releases scs scs' batch_id bad (err e) h absent refused = elim e [ ]
  refused-releases scs scs' batch_id bad panic h absent refused = ground arith

  -- The stream consumer of a refused first payload stays without a reader: when the next payload
  -- has the same type and another new sub-stream, its cleanup releases the nil reader and panics.
  pub refused_payload_panics :
      (scs scs' : List (ℕ × StreamConsumer ipc)) (batch_id batch_id' : ℕ) (bad next : ArrowPayload)
      → find_consumer ipc bad.sub_stream_id scs ≡ none
      → consume_payload ipc scs batch_id bad ≡ err scs'
      → next.payload_type ≡ bad.payload_type
      → find_consumer ipc next.sub_stream_id scs' ≡ none
      → consume_payload ipc scs' batch_id' next ≡ panic
  unfolding consume_payload
  refused_payload_panics scs scs' batch_id batch_id' bad next absent refused type absent' = ground (
    arith,
    refused-releases scs scs' batch_id bad (release_consumers ipc bad.payload_type scs) refl absent
        refused,
  )
