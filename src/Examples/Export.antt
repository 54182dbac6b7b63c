-- ===== src/Examples/Export.antt =====
-- A stream of the exporter at concrete senders.
use otel_arrow_adapter.Base.{ℕ, ◌+◌, ◌≤◌, ◌≡◌, refl, true, false, List, [], ◌∷◌}
use otel_arrow_adapter.Export.Waiters.{
  StatusMessage, unavailable, success, restarting, get_sender_channels, respond, response_to,
  restart_all, find_waiter, delete_waiter, set_batch_channel, process_batch_status, waiting,
  answered, process_batch_status-answers,
}
use otel_arrow_adapter.Export.Stream.{
  StreamState, absent, starting, stopped, new_stream, times, set_ready, select, submit, take_item,
  cancel, remove_ready, register, send, fail_receive, finish, receive, Reaches, here, then_step,
}
use otel_arrow_adapter.Export.Answers.{answered_at_most_once, finished-answers_all}

-- The statuses of two batches, one of which is not known.
abbrev statuses : List StatusMessage
statuses =
    record { batch_id = 4; is_ok = true; error_code = unavailable }
    ∷ record { batch_id = 9; is_ok = true; error_code = unavailable }
    ∷ []

abbrev waiters : List (ℕ × ℕ)
waiters = (3, 30) ∷ (4, 40) ∷ []

process_batch_status-answers_example :
    answered 40 (process_batch_status statuses waiters).0
      + waiting 40 (process_batch_status statuses waiters).2
    ≡ waiting 40 waiters
process_batch_status-answers_example = process_batch_status-answers 40 statuses waiters

-- One sender is served, and the next one is told to try again, since the stream ends before the
-- status of its batch is received.
abbrev ended : StreamState
ended = record {
  place = absent;
  writer = stopped;
  waiters = [];
  next_batch = 2;
  reading = false;
  shut_down = false;
  finished = true;
  sent = (6, restarting) ∷ (5, success) ∷ [];
  submitted = 6 ∷ 5 ∷ [];
}

abbrev served : StreamState
served = record {
  place = absent;
  writer = starting;
  waiters = [];
  next_batch = 1;
  reading = true;
  shut_down = false;
  finished = false;
  sent = (5, success) ∷ [];
  submitted = 5 ∷ [];
}

serves : Reaches new_stream served
unfolding new_stream times set_batch_channel process_batch_status get_sender_channels respond
    response_to find_waiter delete_waiter
serves =
    then_step
      (then_step
        (then_step
          (then_step
            (then_step (then_step (then_step here (set_ready _ refl)) (select _ 5 refl refl))
              (submit _ 5 refl))
            (take_item _ 5 refl refl))
          (register _ 5 refl))
        (send _ refl))
      (receive _ (record { batch_id = 0; is_ok = true; error_code = unavailable } ∷ []) refl)

ends : Reaches new_stream ended
unfolding new_stream times set_batch_channel restart_all
ends =
    then_step
      (then_step
        (then_step
          (then_step
            (then_step
              (then_step
                (then_step
                  (then_step
                    (then_step
                      (then_step (then_step serves (set_ready _ refl)) (select _ 6 refl refl))
                      (submit _ 6 refl))
                    (take_item _ 6 refl refl))
                  (register _ 6 refl))
                (fail_receive _ refl))
              (send _ refl))
            (set_ready _ refl))
          (cancel _ refl))
        (remove_ready _ refl refl))
      (finish _ refl refl refl)

answered_at_most_once_example : answered 6 (ended.sent) ≤ 1
answered_at_most_once_example = answered_at_most_once ended 6 ends

finished-answers_all_example : answered 6 (ended.sent) ≡ times 6 (ended.submitted)
finished-answers_all_example = finished-answers_all ended 6 ends refl refl
