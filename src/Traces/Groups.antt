-- ===== src/Traces/Groups.antt =====
-- Parent ids in groups of rows: the sorters of links (by trace id) and events (by name) in
-- pkg/otel/traces/arrow, and their decoders in pkg/otel/traces/otlp. `group` is the trace id or the
-- name of the row, as its bytes.
use mathlib.Core.Option
use otel_arrow_adapter.Base.{
  ℕ, ◌<◌, ◌≡◌, Option, none, some, [], arith, if◌then◌else◌, u16_mod, add_word, sub_word,
  add_word-sub_word, add_word-zero, Str, str_eq, str_eq→eq,
}

-- LinksByTraceIdParentId and EventsByNameParentId: `prev_group` is that of prevLink (prevEvent),
-- and `none` is the nil pointer.
pub record GroupEncoder : Type 0 where
  pub prev_parent_id : ℕ
  pub prev_group : Option Str

-- The Reset methods.
unfoldable pub reset : GroupEncoder
reset = record { prev_parent_id = 0; prev_group = none }

-- The Encode methods: the number that is written, and the new state. Parent ids are uint16.
unfoldable pub encode : GroupEncoder → ℕ → Str → ℕ × GroupEncoder
encode s parent_id group =
    let fresh : GroupEncoder = record { prev_parent_id = parent_id; prev_group = some group } in
    elim s.prev_group [
      | none ↦ (parent_id, fresh)
      | some prev ↦
          if str_eq prev group
          then (
            sub_word u16_mod parent_id s.prev_parent_id,
            record s { prev_parent_id = parent_id },
          )
          else (parent_id, fresh)
    ]

-- LinkParentIdDecoder and EventParentIdDecoder, with the encoding that their users pass. The
-- initial group is nil or the empty string.
pub record GroupDecoder : Type 0 where
  pub prev_parent_id : ℕ
  pub prev_group : Str

unfoldable pub new_decoder : GroupDecoder
new_decoder = record { prev_parent_id = 0; prev_group = [] }

-- The case ParentIdDeltaGroupEncoding of the Decode methods.
unfoldable pub decode : GroupDecoder → ℕ → Str → ℕ × GroupDecoder
decode d n group =
    let parent_id = add_word u16_mod d.prev_parent_id n in
    if str_eq d.prev_group group
    then (parent_id, record d { prev_parent_id = parent_id })
    else (n, record { prev_parent_id = n; prev_group = group })

-- The decoder that has seen the rows of the encoder.
abbrev pub follow : GroupEncoder → GroupDecoder
follow e = record { prev_parent_id = e.prev_parent_id; prev_group = Option.get_or e.prev_group [] }

-- What holds between two rows.
pub record IsValid (e : GroupEncoder) : Type 0 where
  pub bounded : e.prev_parent_id < u16_mod
  pub initial : e.prev_group ≡ none → e.prev_parent_id ≡ 0

pub reset-IsValid : IsValid reset
unfolding reset
reset-IsValid = ground arith

pub encode-IsValid :
    (e : GroupEncoder) (parent_id : ℕ) (group : Str)
    → parent_id < u16_mod
    → IsValid e
    → IsValid (encode e parent_id group).1
unfolding encode
encode-IsValid e parent_id group h v = ground arith

-- One row of the links or events: from a valid state, the decoder that follows the encoder returns
-- the uint16 parent id of the row, and follows the encoder after it.
pub decode-encode :
    (e : GroupEncoder) (parent_id : ℕ) (group : Str)
    → parent_id < u16_mod
    → IsValid e
    → decode (follow e) (encode e parent_id group).0 group
      ≡ (parent_id, follow (encode e parent_id group).1)
unfolding encode decode
decode-encode e parent_id group h v = ground (
  arith,
  add_word-sub_word u16_mod parent_id e.prev_parent_id,
  add_word-zero u16_mod parent_id,
  str_eq→eq [] group,
)
