-- ===== src/Transport/Ipc.antt =====
-- The Arrow IPC library that the producer and the consumer of pkg/otel/arrow_record call, and the
-- record messages of pkg/record_message.
use otel_arrow_adapter.Base.{ℕ, ◌≡◌, Bool, true, Option, some, List, Str}

-- ipc.Writer and ipc.Reader, which are not code of this repository. `write` gives whether it
-- succeeded and the bytes it put into the output buffer; `close` whether closing succeeded.
-- `new_reader` and `next` take the bytes that the buffer holds and give what is left of them.
pub record Ipc : Type 1 where
  pub Writer : Type 0
  pub Reader : Type 0
  pub Schema : Type 0
  pub Record : Type 0
  pub schema : Record → Schema
  pub new_writer : Schema → Writer
  pub write : Writer → Record → Bool × List ℕ × Writer
  pub close : Writer → Bool
  pub new_reader : List ℕ → Option (Reader × List ℕ)
  pub next : Reader → List ℕ → Option Record × Reader

module _ (ipc : Ipc) where
  -- A write is read back.
  pub record Passes (w : ipc.Writer) (rec : ipc.Record) : Type 0 where
    pub bytes : List ℕ
    pub w' : ipc.Writer
    pub written : ipc.write w rec ≡ (true, bytes, w')

  -- What the IPC stream format promises, where the reader has memory enough: `Follows s w r` says
  -- that the reader has read all that the writer, opened with the schema `s`, has written.
  pub record IpcLaws : Type 1 where
    pub Follows : ipc.Schema → ipc.Writer → ipc.Reader → Type 0
    pub closes : (w : ipc.Writer) → ipc.close w ≡ true
    pub first :
        (rec : ipc.Record)
        → (out : Passes (ipc.new_writer (ipc.schema rec)) rec) × (r : ipc.Reader) × (rest : List ℕ)
          × (r' : ipc.Reader) × (ipc.new_reader out.bytes ≡ some (r, rest))
          × (ipc.next r rest ≡ (some rec, r'))
          × Follows (ipc.schema rec) out.w' r'
    pub later :
        (w : ipc.Writer) (r : ipc.Reader) (rec : ipc.Record)
        → Follows (ipc.schema rec) w r
        → (out : Passes w rec) × (r' : ipc.Reader) × (ipc.next r out.bytes ≡ (some rec, r'))
          × Follows (ipc.schema rec) out.w' r'

  -- record_message.RecordMessage: the producer reads the sub-stream id (a schema id), the consumer
  -- sets the batch id.
  pub record RecordMessage : Type 0 where
    pub batch_id : ℕ
    pub sub_stream_id : Str
    pub payload_type : ℕ
    pub message_record : ipc.Record

-- colarspb.ArrowPayload and BatchArrowRecords. The ids are decimal numbers.
pub record ArrowPayload : Type 0 where
  pub sub_stream_id : ℕ
  pub payload_type : ℕ
  pub bytes : List ℕ

pub record BatchArrowRecords : Type 0 where
  pub batch_id : ℕ
  pub arrow_payloads : List ArrowPayload
