-- ===== src/Traces/Mismatch.antt =====
-- Events sorted by name and time: EventsByNameTimeUnixNano of pkg/otel/traces/arrow/event.go and
-- the decoder of pkg/otel/traces/otlp/event.go.
use otel_arrow_adapter.Base.{
  ℕ, ◌<◌, ◌≢◌, [], arith, u16_mod, add_word-zero, sub_word-zero, sub_word-changes, Str, str_eq→eq,
}
use otel_arrow_adapter.Traces.Groups.{reset, new_decoder, decode}
use otel_arrow_adapter.Traces.Events.{encode_delta}

-- The parent id that is read for the second of two events.
abbrev pub second_read : ℕ → Str → ℕ → Str → ℕ
second_read p name p' name' =
    let first = encode_delta reset p name in
    let second = encode_delta first.1 p' name' in
    (decode (decode new_decoder first.0 name).1 second.0 name').0

-- When two consecutive events differ in their names, and the first one's parent id is not 0, the
-- second one is read under a wrong parent id.
pub encode_delta-misplaced :
    (p p' : ℕ) (name name' : Str)
    → p < u16_mod
    → p' < u16_mod
    → 0 < p
    → name ≢ name'
    → second_read p name p' name' ≢ p'
unfolding encode_delta decode reset new_decoder
encode_delta-misplaced p p' name name' h h' positive differ = ground (
  arith,
  str_eq→eq [] name,
  str_eq→eq name name',
  sub_word-zero p h,
  add_word-zero u16_mod p h,
  sub_word-changes p' p h' h positive,
)
