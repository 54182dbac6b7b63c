-- ===== src/Export/Waiters.antt =====
-- Waiting senders of a stream: setBatchChannel, getSenderChannels and processBatchStatus of
-- collector/gen/exporter/otlpexporter/internal/arrow/stream.go.
use otel_arrow_adapter.Base.{
  ℕ, ◌+◌, ◌≡◌, refl, ◌≢◌, inl, inr, Bool, true, false, ◌&&◌, Option, none, some, List, [], ◌∷◌,
  ◌++◌, arith, ◌==◌, if◌then◌else◌, Bool-cases, Option-cases,
}

-- arrowpb.StatusMessage, with the codes that the exporter tells apart.
pub data ErrorCode : Type 0 where
  unavailable invalid_argument other_code : ErrorCode

pub record StatusMessage : Type 0 where
  pub batch_id : ℕ
  pub is_ok : Bool
  pub error_code : ErrorCode

-- What a sender receives on its channel: nil, an error that may be retried, a permanent error, or
-- ErrStreamRestarting.
pub data Response : Type 0 where
  success retriable permanent restarting : Response

-- The map `waiters`, from batch ids to channels. A channel is a number.
unfoldable pub find_waiter : ℕ → List (ℕ × ℕ) → Option ℕ
find_waiter id [] = none
find_waiter id ((i, ch) ∷ waiters) =
    let rest = find_waiter id waiters in if i == id then some ch else rest

unfoldable pub delete_waiter : ℕ → List (ℕ × ℕ) → List (ℕ × ℕ)
delete_waiter id [] = []
delete_waiter id ((i, ch) ∷ waiters) =
    let rest = delete_waiter id waiters in if i == id then waiters else (i, ch) ∷ rest

-- setBatchChannel.
unfoldable pub set_batch_channel : ℕ → ℕ → List (ℕ × ℕ) → List (ℕ × ℕ)
set_batch_channel id new [] = (id, new) ∷ []
set_batch_channel id new ((i, ch) ∷ waiters) =
    let rest = set_batch_channel id new waiters in
    if i == id then (i, new) ∷ waiters else (i, ch) ∷ rest

-- getSenderChannels: the channel of each status, whether all were found, and the map.
unfoldable pub get_sender_channels :
    List StatusMessage → List (ℕ × ℕ) → List (Option ℕ) × Bool × List (ℕ × ℕ)
get_sender_channels [] waiters = ([], true, waiters)
get_sender_channels (status ∷ statuses) waiters =
    let found = get_sender_channels statuses (delete_waiter status.batch_id waiters) in
    let missed = get_sender_channels statuses waiters in
    elim (find_waiter status.batch_id waiters) [
      | none ↦ (none ∷ missed.0, false, missed.2)
      | some ch ↦ (some ch ∷ found.0, found.1, found.2)
    ]

-- The response to a status, and whether the stream goes on after it.
unfoldable pub response_to : StatusMessage → Response × Bool
response_to status = if status.is_ok then (success, true) else elim status.error_code [
  | unavailable ↦ (retriable, true)
  | invalid_argument ↦ (permanent, true)
  | other_code ↦ (permanent, false)
]

-- The loop of processBatchStatus over `fin`.
unfoldable pub respond : List (Option ℕ) → List StatusMessage → List (ℕ × Response) × Bool
respond [] statuses = ([], true)
respond (o ∷ fin) [] = ([], true)
respond (o ∷ fin) (status ∷ statuses) =
    let rest = respond fin statuses in
    elim o [
      | none ↦ rest
      | some ch ↦ ((ch, (response_to status).0) ∷ rest.0, (response_to status).1 && rest.1)
    ]

-- processBatchStatus: what is sent on the channels, whether the stream goes on, and the map.
unfoldable pub process_batch_status :
    List StatusMessage → List (ℕ × ℕ) → List (ℕ × Response) × Bool × List (ℕ × ℕ)
process_batch_status statuses waiters =
    let (fin, all, left) = get_sender_channels statuses waiters in
    let (sent, goes_on) = respond fin statuses in (sent, all && goes_on, left)

-- How often a channel waits, and how often it was sent to.
unfoldable pub waiting : ℕ → List (ℕ × ℕ) → ℕ
waiting c [] = 0
waiting c ((i, ch) ∷ waiters) = (if ch == c then 1 else 0) + waiting c waiters

unfoldable pub answered : ℕ → List (ℕ × Response) → ℕ
answered c [] = 0
answered c ((ch, r) ∷ sent) = (if ch == c then 1 else 0) + answered c sent

-- The cleanup at the end of `run`: all that still wait are told to try again.
unfoldable pub restart_all : List (ℕ × ℕ) → List (ℕ × Response)
restart_all [] = []
restart_all ((i, ch) ∷ waiters) = (ch, restarting) ∷ restart_all waiters

pub answered-restart_all :
    (c : ℕ) (waiters : List (ℕ × ℕ)) → answered c (restart_all waiters) ≡ waiting c waiters
unfolding restart_all answered waiting
answered-restart_all c [] = refl
answered-restart_all c ((i, ch) ∷ waiters) = ground (arith, answered-restart_all c waiters)

pub answered-append :
    (c : ℕ) (xs ys : List (ℕ × Response)) → answered c (xs ++ ys) ≡ answered c xs + answered c ys
unfolding answered
answered-append c [] ys = omega arith
answered-append c ((ch, r) ∷ xs) ys = ground (arith, answered-append c xs ys)

pub waiting-set_batch_channel :
    (c id ch : ℕ) (waiters : List (ℕ × ℕ))
    → find_waiter id waiters ≡ none
    → waiting c (set_batch_channel id ch waiters) ≡ (if ch == c then 1 else 0) + waiting c waiters
unfolding find_waiter set_batch_channel waiting
waiting-set_batch_channel c id ch [] h = refl
waiting-set_batch_channel c id ch ((i, ch') ∷ waiters) h =
    ground (arith, waiting-set_batch_channel c id ch waiters)

pub find_waiter-set_batch_channel :
    (j id ch : ℕ) (waiters : List (ℕ × ℕ))
    → j ≢ id
    → find_waiter j waiters ≡ none
    → find_waiter j (set_batch_channel id ch waiters) ≡ none
unfolding find_waiter set_batch_channel
find_waiter-set_batch_channel j id ch [] ne h = ground arith
find_waiter-set_batch_channel j id ch ((i, ch') ∷ waiters) ne h =
    ground (arith, find_waiter-set_batch_channel j id ch waiters)

find_waiter-delete :
    (j id : ℕ) (waiters : List (ℕ × ℕ))
    → find_waiter j waiters ≡ none
    → find_waiter j (delete_waiter id waiters) ≡ none
unfolding find_waiter delete_waiter
find_waiter-delete j id [] h = refl
find_waiter-delete j id ((i, ch) ∷ waiters) h = ground (arith, find_waiter-delete j id waiters)

pub find_waiter-get :
    (j : ℕ) (statuses : List StatusMessage) (waiters : List (ℕ × ℕ))
    → find_waiter j waiters ≡ none
    → find_waiter j (get_sender_channels statuses waiters).2 ≡ none
unfolding get_sender_channels
find_waiter-get j [] waiters h = h
find_waiter-get j (status ∷ statuses) waiters h = ground (
  arith,
  find_waiter-get j statuses waiters h,
  find_waiter-get j statuses (delete_waiter status.batch_id waiters)
      (find_waiter-delete j status.batch_id waiters h),
)

waiting-delete :
    (c id ch : ℕ) (waiters : List (ℕ × ℕ))
    → find_waiter id waiters ≡ some ch
    → (if ch == c then 1 else 0) + waiting c (delete_waiter id waiters) ≡ waiting c waiters
unfolding find_waiter delete_waiter waiting
waiting-delete c id ch [] h = ground arith
waiting-delete c id ch ((i, ch') ∷ waiters) h = elim (Bool-cases (i == id)) [
  | inl same ↦ ground arith
  | inr differ ↦ ground (arith, waiting-delete c id ch waiters (ground arith))
]

answered-get :
    (c : ℕ) (statuses : List StatusMessage) (waiters : List (ℕ × ℕ))
    → answered c (respond (get_sender_channels statuses waiters).0 statuses).0
        + waiting c (get_sender_channels statuses waiters).2
      ≡ waiting c waiters
unfolding get_sender_channels respond answered
answered-get c [] waiters = omega arith
answered-get c (status ∷ statuses) waiters =
    elim (Option-cases (find_waiter status.batch_id waiters)) [
      | inl h ↦ ground (arith, h, answered-get c statuses waiters)
      | inr (ch, h) ↦ ground (
        arith,
        h,
        waiting-delete c status.batch_id ch waiters h,
        answered-get c statuses (delete_waiter status.batch_id waiters),
      )
    ]

-- Whatever the statuses are, each sender that waits either still waits or is sent one response.
pub process_batch_status-answers :
    (c : ℕ) (statuses : List StatusMessage) (waiters : List (ℕ × ℕ))
    → answered c (process_batch_status statuses waiters).0
        + waiting c (process_batch_status statuses waiters).2
      ≡ waiting c waiters
unfolding process_batch_status
process_batch_status-answers c statuses waiters = answered-get c statuses waiters

pub find_waiter-process_batch_status :
    (j : ℕ) (statuses : List StatusMessage) (waiters : List (ℕ × ℕ))
    → find_waiter j waiters ≡ none
    → find_waiter j (process_batch_status statuses waiters).2 ≡ none
unfolding process_batch_status
find_waiter-process_batch_status j statuses waiters h = find_waiter-get j statuses waiters h
