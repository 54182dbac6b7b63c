-- ===== src/Examples/Answers.antt =====
-- Batches that a receiver answers.
use otel_arrow_adapter.Base.{
  ℕ, ◌≡◌, refl, ◌+◌, inr, Bool, true, false, none, some, Option, Str, List, [], ◌∷◌, ◌==◌,
}
use otel_arrow_adapter.Export.Waiters.{
  unavailable, invalid_argument, find_waiter, delete_waiter, process_batch_status,
}
use otel_arrow_adapter.Receive.Headers.{
  Context as HeaderContext, unchanged, HeaderReceiver, decode_headers,
}
use otel_arrow_adapter.Receive.Statuses.{
  PayloadType, metrics, logs, spans, other_payload, Batch, Services, status_for, process_batch,
  any_stream,
}
use otel_arrow_adapter.Receive.Answered.{told, process_batch_status-status_for}

-- The content 0 cannot be converted; another content is one item, and the item 9 is refused.
abbrev services : Services HeaderContext ℕ ℕ ℕ Bool
services = record {
  authenticate = λ ctx auth_hdrs. inr ctx;
  has_pipeline = λ type. true;
  convert = λ type c content. elim (content == 0) [
    | true ↦ (none, c)
    | false ↦ (some (content ∷ []), c + 1)
  ];
  consume = λ ctx item. elim (item == 9) [ true ↦ some false | false ↦ none ];
  is_permanent = λ e. e;
}

-- A decoder of single bytes, which counts them: each is a name without a value, and 0 is none.
abbrev write : ℕ → List ℕ → Option (List (Str × Str)) × ℕ
write d [] = (some [], d)
write d (b ∷ bytes) = elim (b == 0) [ true ↦ (none, d) | false ↦ (some ((b ∷ [], []) ∷ []), d + 1) ]

abbrev receiver : HeaderReceiver ℕ
receiver = record {
  decoder = 0;
  include_metadata = true;
  has_auth_server = false;
  stream_hdrs = [];
}

abbrev batch : ℕ → List ℕ → PayloadType → ℕ → Batch ℕ
batch id headers type content = record {
  id = id;
  headers = headers;
  payload_types = type ∷ [];
  content = content;
}

-- Accepted, refused by the next consumer, not converted, of an unknown type, and after a batch with
-- headers that the decoder refuses.
abbrev six_batches : List (Batch ℕ × Bool)
six_batches =
    (batch 5 [] spans 1, true)
    ∷ (batch 6 (65 ∷ []) logs 9, true)
    ∷ (batch 7 [] metrics 0, true)
    ∷ (batch 8 [] other_payload 1, true)
    ∷ (batch 9 (0 ∷ []) spans 1, true)
    ∷ (batch 10 [] spans 1, true)
    ∷ []

four_statuses :
    any_stream services write (λ s. s) receiver 0 six_batches
    ≡ record { batch_id = 5; is_ok = true; error_code = unavailable }
      ∷ record { batch_id = 6; is_ok = false; error_code = unavailable }
      ∷ record { batch_id = 7; is_ok = false; error_code = invalid_argument }
      ∷ record { batch_id = 8; is_ok = false; error_code = unavailable }
      ∷ []
unfolding any_stream decode_headers
four_statuses = refl

channel_found : find_waiter 7 ((4, 1) ∷ (7, 2) ∷ []) ≡ some 2
unfolding find_waiter
channel_found = refl

process_batch_status-status_for_example :
    process_batch_status
      (status_for services 7 (process_batch services unchanged none 0 (batch 7 [] metrics 0)).0
        ∷ [])
      ((4, 1) ∷ (7, 2) ∷ [])
    ≡ (
      (2, told services (process_batch services unchanged none 0 (batch 7 [] metrics 0)).0) ∷ [],
      true,
      delete_waiter 7 ((4, 1) ∷ (7, 2) ∷ []),
    )
process_batch_status-status_for_example =
    process_batch_status-status_for services unchanged none 0 (batch 7 [] metrics 0)
      ((4, 1) ∷ (7, 2) ∷ []) 2 channel_found
