-- ===== src/Examples/Receive.antt =====
-- Headers of a batch at concrete values.
use otel_arrow_adapter.Base.{
  ℕ, suc, ◌+◌, ◌≡◌, refl, true, false, ◌&&◌, Option, none, some, List, [], ◌∷◌, leb, if◌then◌else◌,
  Str, str_eq,
}
use otel_arrow_adapter.Receive.Headers.{
  find_header, append_header, put_header, HeaderReceiver, with_metadata, emit, merge_stream,
  new_context, decode_headers, combine_headers, carried, of_stream, combined,
}
use otel_arrow_adapter.Receive.Merge.{combine_headers-combined}

-- ASCII letters in lower case, and a decoder that reads its bytes as the values of the header "A".
to_lower : Str → Str
to_lower [] = []
to_lower (c ∷ s) = (if leb 65 c && leb c 90 then c + 32 else c) ∷ to_lower s

decode_fields : ℕ → List ℕ → Option (List (Str × Str)) × ℕ
decode_fields d [] = (none, d)
decode_fields d (b ∷ bytes) = (some ((65 ∷ [], b ∷ []) ∷ (65 ∷ [], bytes) ∷ []), suc d)

-- The stream has the headers "a" and "b".
abbrev receiver : HeaderReceiver ℕ
receiver = record {
  decoder = 0;
  include_metadata = true;
  has_auth_server = false;
  stream_hdrs = (97 ∷ [], (49 ∷ []) ∷ []) ∷ (98 ∷ [], (50 ∷ []) ∷ []) ∷ [];
}

headers_combined :
    (combine_headers decode_fields to_lower receiver (51 ∷ 52 ∷ [])).0
    ≡ some (
      with_metadata (some ((97 ∷ [], (51 ∷ []) ∷ (52 ∷ []) ∷ []) ∷ (98 ∷ [], (50 ∷ []) ∷ []) ∷ [])),
      some ((97 ∷ [], (51 ∷ []) ∷ (52 ∷ []) ∷ []) ∷ (98 ∷ [], (50 ∷ []) ∷ []) ∷ []),
    )
unfolding combine_headers decode_headers merge_stream emit append_header put_header find_header
    new_context decode_fields to_lower str_eq
headers_combined = refl

combine_headers-combined_example :
    (hdrs : List (Str × List Str)) × ((combine_headers decode_fields to_lower receiver
        (51 ∷ 52 ∷ [])).0
      ≡ some (with_metadata (some hdrs), some hdrs))
    × ((k : Str)
        → find_header k hdrs
          ≡ combined decode_fields to_lower
              (carried decode_fields to_lower k ((65 ∷ [], 51 ∷ []) ∷ (65 ∷ [], 52 ∷ []) ∷ []))
              (of_stream decode_fields to_lower k receiver.stream_hdrs))
unfolding decode_fields
combine_headers-combined_example =
    combine_headers-combined to_lower decode_fields receiver 51 (52 ∷ [])
      ((65 ∷ [], 51 ∷ []) ∷ (65 ∷ [], 52 ∷ []) ∷ []) refl refl
