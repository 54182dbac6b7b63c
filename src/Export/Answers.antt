-- ===== src/Export/Answers.antt =====
-- The senders of a stream in the states that it can reach
-- (collector/gen/exporter/otlpexporter/internal/arrow).
use otel_arrow_adapter.Base.{ℕ, ◌+◌, ◌≤◌, ◌≡◌, refl, true, false, none, [], arith}
use otel_arrow_adapter.Export.Waiters.{
  find_waiter, process_batch_status, restart_all, waiting, answered, answered-restart_all,
  answered-append, waiting-set_batch_channel, find_waiter-set_batch_channel,
  process_batch_status-answers, find_waiter-process_batch_status,
}
use otel_arrow_adapter.Export.Stream.{
  absent, stopped, StreamState, new_stream, times, Step, set_ready, select, submit, take_item,
  cancel, remove_ready, refuse_item, shutdown, fail_encode, register, send, fail_send, receive,
  fail_receive, finish, Reaches, here, then_step, at_place, at_writer, is_waiting,
}

-- Every sender that has taken the stream is in one place, or was answered.
pub record IsConsistent (s : StreamState) : Type 0 where
  pub accounts :
      (c : ℕ)
      → at_place c s.place + at_writer c s.writer + waiting c s.waiters + answered c s.sent
        ≡ times c s.submitted
  pub once : (c : ℕ) → times c s.submitted ≤ 1
  pub ids : (id : ℕ) → s.next_batch ≤ id → find_waiter id s.waiters ≡ none
  pub left : is_waiting s.writer ≡ false → s.shut_down ≡ false → s.place ≡ absent
  pub down : s.shut_down ≡ true → s.writer ≡ stopped
  pub ended : s.finished ≡ true → (s.writer ≡ stopped) × (s.waiters ≡ []) × (s.reading ≡ false)

none_waits : (id : ℕ) → find_waiter id [] ≡ none
unfolding find_waiter
none_waits id = refl

Step-IsConsistent : {s t : StreamState} → Step s t → IsConsistent s → IsConsistent t
unfolding at_place at_writer is_waiting times answered waiting
Step-IsConsistent (set_ready s w) v = record {
  accounts = λ c. ground (arith, v.accounts c, v.left, v.down);
  once = v.once;
  ids = v.ids;
  left = ground (arith, v.left, v.down);
  down = ground (arith, v.down);
  ended = ground (arith, v.ended, v.down);
}
Step-IsConsistent (select s ch p fresh) v = record {
  accounts = λ c. ground (arith, v.accounts c, v.left, v.down);
  once = λ c. ground (arith, v.once c);
  ids = v.ids;
  left = ground (arith, v.left, v.down);
  down = ground (arith, v.down);
  ended = ground (arith, v.ended, v.down);
}
Step-IsConsistent (submit s ch p) v = record {
  accounts = λ c. ground (arith, v.accounts c, v.left, v.down);
  once = v.once;
  ids = v.ids;
  left = ground (arith, v.left, v.down);
  down = ground (arith, v.down);
  ended = ground (arith, v.ended, v.down);
}
Step-IsConsistent (take_item s ch w p) v = record {
  accounts = λ c. ground (arith, v.accounts c, v.left, v.down);
  once = v.once;
  ids = v.ids;
  left = ground (arith, v.left, v.down);
  down = ground (arith, v.down);
  ended = ground (arith, v.ended, v.down);
}
Step-IsConsistent (cancel s w) v = record {
  accounts = λ c. ground (arith, v.accounts c, v.left, v.down);
  once = v.once;
  ids = v.ids;
  left = ground (arith, v.left, v.down);
  down = ground (arith, v.down);
  ended = ground (arith, v.ended, v.down);
}
Step-IsConsistent (remove_ready s w p) v = record {
  accounts = λ c. ground (arith, v.accounts c, v.left, v.down);
  once = v.once;
  ids = v.ids;
  left = ground (arith, v.left, v.down);
  down = ground (arith, v.down);
  ended = ground (arith, v.ended, v.down);
}
Step-IsConsistent (refuse_item s ch w p) v = record {
  accounts = λ c. ground (arith, v.accounts c, v.left, v.down);
  once = v.once;
  ids = v.ids;
  left = ground (arith, v.left, v.down);
  down = ground (arith, v.down);
  ended = ground (arith, v.ended, v.down);
}
Step-IsConsistent (shutdown s w) v = record {
  accounts = λ c. ground (arith, v.accounts c, v.left, v.down);
  once = v.once;
  ids = v.ids;
  left = ground (arith, v.left, v.down);
  down = ground (arith, v.down);
  ended = ground (arith, v.ended, v.down);
}
Step-IsConsistent (fail_encode s ch w) v = record {
  accounts = λ c. ground (arith, v.accounts c, v.left, v.down);
  once = v.once;
  ids = v.ids;
  left = ground (arith, v.left, v.down);
  down = ground (arith, v.down);
  ended = ground (arith, v.ended, v.down);
}
Step-IsConsistent (register s ch w) v = record {
  accounts = λ c. ground (
    arith,
    v.accounts c,
    waiting-set_batch_channel c s.next_batch ch s.waiters (v.ids s.next_batch (omega arith)),
  );
  once = v.once;
  ids = λ id h.
      find_waiter-set_batch_channel id s.next_batch ch s.waiters (omega arith)
        (v.ids id (omega arith));
  left = ground (arith, v.left, v.down);
  down = ground (arith, v.down);
  ended = ground (arith, v.ended, v.down);
}
Step-IsConsistent (send s w) v = record {
  accounts = λ c. ground (arith, v.accounts c, v.left, v.down);
  once = v.once;
  ids = v.ids;
  left = ground (arith, v.left, v.down);
  down = ground (arith, v.down);
  ended = ground (arith, v.ended, v.down);
}
Step-IsConsistent (fail_send s w) v = record {
  accounts = λ c. ground (arith, v.accounts c, v.left, v.down);
  once = v.once;
  ids = v.ids;
  left = ground (arith, v.left, v.down);
  down = ground (arith, v.down);
  ended = ground (arith, v.ended, v.down);
}
Step-IsConsistent (receive s statuses r) v = record {
  accounts = λ c. ground (
    arith,
    v.accounts c,
    process_batch_status-answers c statuses s.waiters,
    answered-append c (process_batch_status statuses s.waiters).0 s.sent,
  );
  once = v.once;
  ids = λ id h. find_waiter-process_batch_status id statuses s.waiters (v.ids id h);
  left = ground (arith, v.left, v.down);
  down = ground (arith, v.down);
  ended = ground (arith, v.ended, v.down);
}
Step-IsConsistent (fail_receive s r) v = record {
  accounts = λ c. ground (arith, v.accounts c, v.left, v.down);
  once = v.once;
  ids = v.ids;
  left = ground (arith, v.left, v.down);
  down = ground (arith, v.down);
  ended = ground (arith, v.ended, v.down);
}
Step-IsConsistent (finish s w r f) v = record {
  accounts = λ c. ground (
    arith,
    v.accounts c,
    answered-restart_all c s.waiters,
    answered-append c (restart_all s.waiters) s.sent,
  );
  once = v.once;
  ids = λ id h. none_waits id;
  left = ground (arith, v.left, v.down);
  down = ground (arith, v.down);
  ended = ground (arith, v.ended, v.down);
}

new_stream-IsConsistent : IsConsistent new_stream
unfolding new_stream at_place at_writer is_waiting times answered waiting
new_stream-IsConsistent = record {
  accounts = λ c. omega arith;
  once = λ c. omega arith;
  ids = λ id h. none_waits id;
  left = λ h h'. refl;
  down = ground arith;
  ended = ground arith;
}

-- Whatever the goroutines, the senders and the server do, a stream stays consistent.
pub Reaches-IsConsistent : {s t : StreamState} → Reaches s t → IsConsistent s → IsConsistent t
Reaches-IsConsistent here v = v
Reaches-IsConsistent (then_step r st) v = Step-IsConsistent st (Reaches-IsConsistent r v)

-- In every state that a stream can reach, no sender was sent more than one response, so none of
-- the sends on its channel of capacity 1 blocks.
pub answered_at_most_once : (t : StreamState) (c : ℕ) → Reaches new_stream t → answered c t.sent ≤ 1
answered_at_most_once t c r =
    let v = Reaches-IsConsistent r new_stream-IsConsistent in omega (arith, v.accounts c, v.once c)

-- When `run` has returned and the exporter was not shutting down, every sender that took the
-- stream was sent exactly one response.
pub finished-answers_all :
    (t : StreamState) (c : ℕ)
    → Reaches new_stream t
    → t.finished ≡ true
    → t.shut_down ≡ false
    → answered c t.sent ≡ times c t.submitted
unfolding at_place at_writer is_waiting waiting
finished-answers_all t c r f up =
    let v = Reaches-IsConsistent r new_stream-IsConsistent in
    ground (arith, v.accounts c, v.ended, v.left, v.down)
