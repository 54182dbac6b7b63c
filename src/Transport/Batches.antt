-- ===== src/Transport/Batches.antt =====
-- The batches of a stream, from Producer.Produce to Consumer.Consume (pkg/otel/arrow_record).
use mathlib.Core.Option
use otel_arrow_adapter.Base.{
  ℕ, suc, ◌+◌, ◌<◌, ◌≡◌, refl, ap, ◌∙◌, Option, none, some, List, [], ◌∷◌, map, arith, length,
  u64_mod, add_word, add_word-eq_of_lt, Str, ok, err, panic,
}
use otel_arrow_adapter.Transport.Ipc.{Ipc, IpcLaws, RecordMessage, BatchArrowRecords}
use otel_arrow_adapter.Transport.Producer.{Producer, produce}
use otel_arrow_adapter.Transport.Consumer.{StreamConsumer, consume}
use otel_arrow_adapter.Transport.Delivery.{InSync, received}
use otel_arrow_adapter.Transport.RoundTrip.{Agree, produce-consume}

-- A producer makes one batch after the other, and a consumer reads each: what it receives, and
-- `none` when one of the two fails.
unfoldable pub exchange :
    (ipc : Ipc)
    → Producer ipc
    → List (ℕ × StreamConsumer ipc)
    → List (List (RecordMessage ipc))
    → Option (List (List (RecordMessage ipc)))
exchange ipc p scs [] = some []
exchange ipc p scs (rms ∷ batches) =
    let (made, p') = produce ipc p rms in
    elim made [
      | none ↦ none
      | some bar ↦ elim (consume ipc scs bar) [
        | panic ↦ none
        | err e ↦ none
        | ok out ↦ Option.map (λ later. out.0 ∷ later) (exchange ipc p' out.1 batches)
      ]
    ]

exchange-step :
    (ipc : Ipc) (p p' : Producer ipc) (scs scs' : List (ℕ × StreamConsumer ipc))
    (rms got : List (RecordMessage ipc)) (batches later : List (List (RecordMessage ipc)))
    (bar : BatchArrowRecords)
    → produce ipc p rms ≡ (some bar, p')
    → consume ipc scs bar ≡ ok (got, scs')
    → exchange ipc p' scs' batches ≡ some later
    → exchange ipc p scs (rms ∷ batches) ≡ some (got ∷ later)
unfolding exchange
exchange-step ipc p p' scs scs' rms got batches later bar made read rest =
    ground (arith, made, read, rest)

next_number : (n : ℕ) → suc n < u64_mod → add_word u64_mod n 1 ≡ suc n
next_number n h = omega (arith, add_word-eq_of_lt u64_mod n 1)

unfoldable pub messages_of : {A : Type 0} → List (List A) → ℕ
messages_of [] = 0
messages_of (rms ∷ batches) = length rms + messages_of batches

module _ (ipc : Ipc) (laws : IpcLaws ipc) (schema_of : Str → ipc.Schema) where
  pub data AllAgree : List (List (RecordMessage ipc)) → Type 0 where
    no_batches : AllAgree []
    next_batch :
        {rms : List (RecordMessage ipc)}
        → {batches : List (List (RecordMessage ipc))} → Agree ipc laws schema_of rms
        → AllAgree batches
        → AllAgree (rms ∷ batches)

  -- The batches with their numbers, as the consumer's messages.
  abbrev pub numbered : ℕ → List (List (RecordMessage ipc)) → List (List (RecordMessage ipc))
  numbered batch_id [] = []
  numbered batch_id (rms ∷ batches) =
      map (received ipc laws schema_of batch_id) rms ∷ numbered (suc batch_id) batches

  -- From a producer and a consumer that are in sync, all batches go through, however the schemas and
  -- with them the sub-streams change: neither side fails, and the consumer receives the records and
  -- payload types of all batches in order, under batch ids that count upwards. Each message's record
  -- has the schema that its schema id names, and the numbers of the sub-streams and of the batches do
  -- not run out.
  pub exchange-delivers :
      (p : Producer ipc) (scs : List (ℕ × StreamConsumer ipc))
      (batches : List (List (RecordMessage ipc)))
      → InSync ipc laws schema_of p scs
      → AllAgree batches
      → p.next_sub_stream_id + messages_of batches < u64_mod
      → p.batch_id + length batches < u64_mod
      → exchange ipc p scs batches ≡ some (numbered p.batch_id batches)
  unfolding exchange messages_of
  exchange-delivers p scs [] sync no_batches room ids = refl
  exchange-delivers p scs (rms ∷ batches) sync (next_batch agree others) room ids =
      let (bar, p', scs', made, read, sync', used, counted) =
        produce-consume ipc laws schema_of p scs rms sync agree (omega arith) in
      let next : p'.batch_id ≡ suc p.batch_id = counted ∙ next_number p.batch_id (omega arith) in
      exchange-step ipc p p' scs scs' rms (map (received ipc laws schema_of p.batch_id) rms) batches
        (numbered (suc p.batch_id) batches) bar made read
        (exchange-delivers p' scs' batches sync' others (omega (arith, used)) (omega (arith, next))
          ∙ ap (λ n. some (numbered n batches)) next)
