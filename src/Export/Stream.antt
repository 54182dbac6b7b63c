-- ===== src/Export/Stream.antt =====
-- A stream of the exporter as a state machine: write, read and run of
-- collector/gen/exporter/otlpexporter/internal/arrow/stream.go, and setReady and removeReady of
-- prioritizer.go. A step is what one goroutine does between two points where another may act.
use otel_arrow_adapter.Base.{
  ℕ, suc, ◌+◌, ◌≡◌, Bool, true, false, List, [], ◌∷◌, ◌++◌, ◌==◌, if◌then◌else◌,
}
use otel_arrow_adapter.Export.Waiters.{
  StatusMessage, Response, permanent, restarting, set_batch_channel, process_batch_status,
  restart_all,
}

-- Where the stream is: in the ready channel, with a sender that has taken it from there, with an
-- item in `toWrite`, or in none of these. A sender stands for its response channel, a number.
pub data Place : Type 0 where
  absent ready : Place
  selected queued : ℕ → Place

-- Where `write` is: at the head of its loop, in its select, with an item, with a batch that is
-- registered, in removeReady, or returned.
pub data Writer : Type 0 where
  starting waiting_for_item sending removing stopped : Writer
  writing : ℕ → Writer

-- `reading` says that `read` has not returned, `shut_down` that removeReady returned because the
-- exporter shuts down, `finished` that `run` returned. `sent` are the responses so far, `submitted`
-- the senders that have taken the stream.
pub record StreamState : Type 0 where
  pub place : Place
  pub writer : Writer
  pub waiters : List (ℕ × ℕ)
  pub next_batch : ℕ
  pub reading : Bool
  pub shut_down : Bool
  pub finished : Bool
  pub sent : List (ℕ × Response)
  pub submitted : List ℕ

unfoldable pub new_stream : StreamState
new_stream = record {
  place = absent;
  writer = starting;
  waiters = [];
  next_batch = 0;
  reading = true;
  shut_down = false;
  finished = false;
  sent = [];
  submitted = [];
}

unfoldable pub times : ℕ → List ℕ → ℕ
times c [] = 0
times c (x ∷ xs) = (if x == c then 1 else 0) + times c xs

-- The steps. The producer numbers the batches upwards.
pub data Step : StreamState → StreamState → Type 0 where
  set_ready :
      (s : StreamState)
      → s.writer ≡ starting
      → Step s (record s { place = ready; writer = waiting_for_item })
  select :
      (s : StreamState) (ch : ℕ)
      → s.place ≡ ready
      → times ch s.submitted ≡ 0
      → Step s (record s { place = selected ch; submitted = ch ∷ s.submitted })
  submit :
      (s : StreamState) (ch : ℕ) → s.place ≡ selected ch → Step s (record s { place = queued ch })
  take_item :
      (s : StreamState) (ch : ℕ)
      → s.writer ≡ waiting_for_item
      → s.place ≡ queued ch
      → Step s (record s { place = absent; writer = writing ch })
  cancel : (s : StreamState) → s.writer ≡ waiting_for_item → Step s (record s { writer = removing })
  remove_ready :
      (s : StreamState)
      → s.writer ≡ removing
      → s.place ≡ ready
      → Step s (record s { place = absent; writer = stopped })
  refuse_item :
      (s : StreamState) (ch : ℕ)
      → s.writer ≡ removing
      → s.place ≡ queued ch
      → Step s (record s { place = absent; writer = stopped; sent = (ch, restarting) ∷ s.sent })
  shutdown :
      (s : StreamState)
      → s.writer ≡ removing
      → Step s (record s { writer = stopped; shut_down = true })
  fail_encode :
      (s : StreamState) (ch : ℕ)
      → s.writer ≡ writing ch
      → Step s (record s { writer = stopped; sent = (ch, permanent) ∷ s.sent })
  register :
      (s : StreamState) (ch : ℕ)
      → s.writer ≡ writing ch
      → Step s (record s {
        writer = sending;
        waiters = set_batch_channel s.next_batch ch s.waiters;
        next_batch = suc s.next_batch;
      })
  send : (s : StreamState) → s.writer ≡ sending → Step s (record s { writer = starting })
  fail_send : (s : StreamState) → s.writer ≡ sending → Step s (record s { writer = stopped })
  receive :
      (s : StreamState) (statuses : List StatusMessage)
      → s.reading ≡ true
      → Step s (record s {
        sent = (process_batch_status statuses s.waiters).0 ++ s.sent;
        reading = (process_batch_status statuses s.waiters).1;
        waiters = (process_batch_status statuses s.waiters).2;
      })
  fail_receive : (s : StreamState) → s.reading ≡ true → Step s (record s { reading = false })
  finish :
      (s : StreamState)
      → s.writer ≡ stopped
      → s.reading ≡ false
      → s.finished ≡ false
      → Step s (record s { finished = true; waiters = []; sent = restart_all s.waiters ++ s.sent })

pub data Reaches : StreamState → StreamState → Type 0 where
  here : {s : StreamState} → Reaches s s
  then_step : {s t u : StreamState} → Reaches s t → Step t u → Reaches s u

-- How often a sender is at a place.
unfoldable pub at_place : ℕ → Place → ℕ
at_place c absent = 0
at_place c ready = 0
at_place c (selected ch) = if ch == c then 1 else 0
at_place c (queued ch) = if ch == c then 1 else 0

unfoldable pub at_writer : ℕ → Writer → ℕ
at_writer c starting = 0
at_writer c waiting_for_item = 0
at_writer c sending = 0
at_writer c removing = 0
at_writer c stopped = 0
at_writer c (writing ch) = if ch == c then 1 else 0

-- While it waits for an item, or takes itself from the ready channel, the writer is not done with
-- the place of the stream.
unfoldable pub is_waiting : Writer → Bool
is_waiting starting = false
is_waiting waiting_for_item = true
is_waiting sending = false
is_waiting removing = true
is_waiting stopped = false
is_waiting (writing ch) = false
