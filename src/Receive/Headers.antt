-- ===== src/Receive/Headers.antt =====
-- Headers of a batch: headerReceiver of
-- collector/gen/receiver/otlpreceiver/internal/arrow/arrow.go. The hpack decoder and strings.ToLower
-- are parameters.
use otel_arrow_adapter.Base.{
  ℕ, Bool, ◌||◌, Option, none, some, List, [], ◌∷◌, ◌++◌, if◌then◌else◌, Str, str_eq,
}

-- A map from header names to their values, map[string][]string.
unfoldable pub find_header : Str → List (Str × List Str) → Option (List Str)
find_header k [] = none
find_header k ((name, values) ∷ hdrs) =
    let rest = find_header k hdrs in if str_eq name k then some values else rest

-- tmpHdrs[hn] = append(tmpHdrs[hn], value)
unfoldable pub append_header : Str → Str → List (Str × List Str) → List (Str × List Str)
append_header k value [] = (k, value ∷ []) ∷ []
append_header k value ((name, values) ∷ hdrs) =
    let rest = append_header k value hdrs in
    if str_eq name k then (name, values ++ (value ∷ [])) ∷ hdrs else (name, values) ∷ rest

-- tmpHdrs[lk] = v, where the key is not in the map.
unfoldable pub put_header : Str → List Str → List (Str × List Str) → List (Str × List Str)
put_header k values hdrs = hdrs ++ ((k, values) ∷ [])

-- The state of a headerReceiver. `stream_hdrs` is nil exactly when it is empty here.
pub record HeaderReceiver (Decoder : Type 0) : Type 0 where
  pub decoder : Decoder
  pub include_metadata : Bool
  pub has_auth_server : Bool
  pub stream_hdrs : List (Str × List Str)

-- The context of a batch: that of the stream, or one with these metadata.
pub data Context : Type 0 where
  unchanged : Context
  with_metadata : Option (List (Str × List Str)) → Context

module _ {Decoder : Type 0} (write : Decoder → List ℕ → Option (List (Str × Str)) × Decoder)
    (to_lower : Str → Str) where
  -- The calls of tmpHdrsAppend by the decoder, where tmpHdrs is not nil.
  unfoldable pub emit : List (Str × Str) → List (Str × List Str) → List (Str × List Str)
  emit [] hdrs = hdrs
  emit ((name, value) ∷ fields) hdrs = emit fields (append_header (to_lower name) value hdrs)

  -- Adding the stream's headers that the batch does not carry.
  unfoldable pub merge_stream :
      List (Str × List Str) → List (Str × List Str) → List (Str × List Str)
  unfolding put_header
  merge_stream [] hdrs = hdrs
  merge_stream ((k, v) ∷ stream) hdrs = elim (find_header (to_lower k) hdrs) [
    | some present ↦ merge_stream stream hdrs
    | none ↦ merge_stream stream (put_header (to_lower k) v hdrs)
  ]

  -- newContext.
  unfoldable pub new_context : HeaderReceiver Decoder → Option (List (Str × List Str)) → Context
  new_context h hdrs = with_metadata (if h.include_metadata then hdrs else none)

  -- combineHeaders from the decoding on: `none` is its error.
  unfoldable pub decode_headers :
      HeaderReceiver Decoder
      → List ℕ
      → Option (Context × Option (List (Str × List Str))) × HeaderReceiver Decoder
  unfolding new_context
  decode_headers h bytes =
      let (fields, d) = write h.decoder bytes in
      let h' = record h { decoder = d } in
      elim fields [
        | none ↦ (none, h')
        | some fs ↦
            let hdrs =
              if h.include_metadata || h.has_auth_server
              then some (merge_stream h.stream_hdrs (emit fs []))
              else none in
            (some (new_context h hdrs, hdrs), h')
      ]

  -- combineHeaders: the context, and the headers for the authentication.
  unfoldable pub combine_headers :
      HeaderReceiver Decoder
      → List ℕ
      → Option (Context × Option (List (Str × List Str))) × HeaderReceiver Decoder
  unfolding new_context
  combine_headers h [] = elim h.stream_hdrs [
    | [] ↦ (some (unchanged, none), h)
    | first ∷ others ↦ (some (new_context h (some h.stream_hdrs), some h.stream_hdrs), h)
  ]
  combine_headers h (b ∷ bytes) = decode_headers h (b ∷ bytes)

  -- The values that the batch carries for a name, and those of the stream.
  unfoldable pub carried : Str → List (Str × Str) → List Str
  carried k [] = []
  carried k ((name, value) ∷ fields) =
      let rest = carried k fields in if str_eq (to_lower name) k then value ∷ rest else rest

  unfoldable pub of_stream : Str → List (Str × List Str) → Option (List Str)
  of_stream k [] = none
  of_stream k ((name, values) ∷ stream) =
      let rest = of_stream k stream in if str_eq (to_lower name) k then some values else rest

  -- What the two together say: the stream's values count where the batch carries none.
  unfoldable pub combined : List Str → Option (List Str) → Option (List Str)
  combined [] stream = stream
  combined (v ∷ values) stream = some (v ∷ values)
