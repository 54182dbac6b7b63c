-- ===== src/Receive/Merge.antt =====
-- The headers of a batch by name: combineHeaders of
-- collector/gen/receiver/otlpreceiver/internal/arrow/arrow.go.
use otel_arrow_adapter.Base.{
  ℕ, ◌≡◌, refl, sym, ap, inl, inr, true, false, ◌||◌, Option, none, some, List, [], ◌∷◌, ◌++◌,
  arith, if◌then◌else◌, Bool-cases, Option-cases, Str, str_eq, str_eq_refl, str_eq→eq,
}
use mathlib.Core.List.{append-nil, append_assoc}
use otel_arrow_adapter.Receive.Headers.{
  find_header, append_header, put_header, HeaderReceiver, with_metadata, emit, merge_stream,
  new_context, decode_headers, combine_headers, carried, of_stream, combined,
}

unfoldable extend : Option (List Str) → List Str → Option (List Str)
extend none [] = none
extend none (v ∷ values) = some (v ∷ values)
extend (some present) values = some (present ++ values)

extend_twice :
    (o : Option (List Str)) (v : Str) (values : List Str)
    → extend (extend o (v ∷ [])) values ≡ extend o (v ∷ values)
unfolding extend
extend_twice none v values = refl
extend_twice (some present) v values = ap some (append_assoc present (v ∷ []) values)

extend-nil : (o : Option (List Str)) → extend o [] ≡ o
unfolding extend
extend-nil none = refl
extend-nil (some present) = ap some (append-nil present)

find-append_header-same :
    (k value : Str) (hdrs : List (Str × List Str))
    → find_header k (append_header k value hdrs) ≡ extend (find_header k hdrs) (value ∷ [])
unfolding find_header append_header extend
find-append_header-same k value [] = ground (arith, str_eq_refl k)
find-append_header-same k value ((name, values) ∷ hdrs) =
    ground (arith, str_eq_refl k, find-append_header-same k value hdrs)

find-append_header-other :
    (k n value : Str) (hdrs : List (Str × List Str))
    → str_eq n k ≡ false
    → find_header k (append_header n value hdrs) ≡ find_header k hdrs
unfolding find_header append_header
find-append_header-other k n value [] differ = ground (arith, differ)
find-append_header-other k n value ((name, values) ∷ hdrs) differ =
    ground (arith, differ, str_eq→eq name n, find-append_header-other k n value hdrs differ)

find-put_header :
    (k n : Str) (values : List Str) (hdrs : List (Str × List Str))
    → find_header n hdrs ≡ none
    → find_header k (put_header n values hdrs)
      ≡ (if str_eq n k then some values else find_header k hdrs)
unfolding find_header put_header
find-put_header k n values [] h = refl
find-put_header k n values ((name, vs) ∷ hdrs) h =
    ground (arith, str_eq→eq n k, str_eq→eq name k, find-put_header k n values hdrs (ground arith))

module _ (to_lower : Str → Str) {Decoder : Type 0}
    (write : Decoder → List ℕ → Option (List (Str × Str)) × Decoder) where
  find-emit :
      (k : Str) (fields : List (Str × Str)) (hdrs : List (Str × List Str))
      → find_header k (emit write to_lower fields hdrs)
        ≡ extend (find_header k hdrs) (carried write to_lower k fields)
  unfolding emit carried
  find-emit k [] hdrs = sym (extend-nil (find_header k hdrs))
  find-emit k ((name, value) ∷ fields) hdrs =
      let rest = find-emit k fields (append_header (to_lower name) value hdrs) in
      elim (Bool-cases (str_eq (to_lower name) k)) [
        | inl same ↦ ground (
          arith,
          same,
          rest,
          str_eq→eq (to_lower name) k same,
          find-append_header-same k value hdrs,
          extend_twice (find_header k hdrs) value (carried write to_lower k fields),
        )
        | inr differ ↦
            ground
              (arith, differ, rest, find-append_header-other k (to_lower name) value hdrs differ)
      ]

  unfoldable either : Option (List Str) → Option (List Str) → Option (List Str)
  either none b = b
  either (some a) b = some a

  find-merge_stream :
      (k : Str) (stream hdrs : List (Str × List Str))
      → find_header k (merge_stream write to_lower stream hdrs)
        ≡ either (find_header k hdrs) (of_stream write to_lower k stream)
  unfolding merge_stream of_stream either
  find-merge_stream k [] hdrs = ground arith
  find-merge_stream k ((name, values) ∷ stream) hdrs =
      elim (Option-cases (find_header (to_lower name) hdrs)) [
        | inl absent ↦ ground (
          arith,
          absent,
          str_eq→eq (to_lower name) k,
          find-merge_stream k stream (put_header (to_lower name) values hdrs),
          find-put_header k (to_lower name) values hdrs absent,
        )
        | inr (vs, present) ↦
            ground (arith, present, str_eq→eq (to_lower name) k, find-merge_stream k stream hdrs)
      ]

  -- When the batch carries headers that decode, and metadata or an authentication server are
  -- configured, combineHeaders gives for each name the values that the batch carries for it, in
  -- their order, and where it carries none, those of the stream; the context gets the same headers
  -- exactly where metadata are configured.
  pub combine_headers-combined :
      (h : HeaderReceiver Decoder) (b : ℕ) (bytes : List ℕ) (fields : List (Str × Str))
      → (write h.decoder (b ∷ bytes)).0 ≡ some fields
      → h.include_metadata || h.has_auth_server ≡ true
      → (hdrs : List (Str × List Str)) × ((combine_headers write to_lower h (b ∷ bytes)).0
          ≡ some (with_metadata (if h.include_metadata then some hdrs else none), some hdrs))
        × ((k : Str)
            → find_header k hdrs
              ≡ combined write to_lower
                  (carried write to_lower k fields)
                  (of_stream write to_lower k h.stream_hdrs))
  unfolding combine_headers decode_headers new_context combined either extend find_header
  combine_headers-combined h b bytes fields decoded needed = (
    merge_stream write to_lower h.stream_hdrs (emit write to_lower fields []),
    ground (arith, decoded, needed),
    λ k. ground (
      arith,
      find-merge_stream k h.stream_hdrs (emit write to_lower fields []),
      find-emit k fields [],
    ),
  )
