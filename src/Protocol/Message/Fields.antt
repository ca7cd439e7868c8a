-- ===== src/Protocol/Message/Fields.antt =====
-- What the steps of `Decode` read from an array that holds well-formed fields.
use rpcx.Base.{
  ℕ, ◌+◌, ◌^◌, ◌<◌, ◌≡◌, refl, sym, ap, ◌∙◌, arith, [], ◌∷◌, ◌++◌, Option, none, some, Bytes, true,
  length, length-append, take-append, append_assoc, ◌==◌, ltb, lt→ltb, ◌⊎◌, inl, inr, Bool-cases,
  Option-cases,
}
use rpcx.Base.Dict.{Distinct, bytes_eq_inst}
use rpcx.Protocol.Wire.{be32, length-be32}
use rpcx.Protocol.Slice.{Slice, reslice_at}
use rpcx.Protocol.Header.{Header, IsHeader, compress_type, set_compress_type}
use rpcx.Protocol.Header.View.{flags_view, view, set_compress_type-view}
use rpcx.Protocol.Metadata.{Meta, encode_metadata}
use rpcx.Protocol.Metadata.RoundTrip.{decode_metadata-encode_metadata, length-entry}
use rpcx.Protocol.Message.{Compressors, Compressor, Coded, coded, failed}
use rpcx.Protocol.Message.Encode.{compress_payload}
use rpcx.Protocol.Message.Frame.{field}
use rpcx.Protocol.Message.Decode.{
  State, value, ◌>>=◌, cut, uint32, length_at, string_at, parse_metadata, decompress,
}
use rpcx.Protocol.Message.RoundTrip.{>>=-value, uint32-be32}

module _ (s : State) where
  pub cut_at :
      (pre mid post : Bytes) (a b : ℕ)
      → s.msg.data_slice.store ≡ pre ++ (mid ++ post)
      → a ≡ length pre
      → b ≡ a + length mid
      → cut a b s ≡ value (record { store = mid ++ post; len = length mid }) s
  unfolding cut
  cut_at pre mid post a b e ha hb = rw (reslice_at s.msg.data_slice pre mid post a b e ha hb, cut)

  pub length_at_lem :
      (pre post : Bytes) (n k : ℕ)
      → s.msg.data_slice.store ≡ pre ++ (be32 k ++ post)
      → n ≡ length pre
      → k < 2 ^ 32
      → length_at n s ≡ value k s
  unfolding ◌>>=◌ length_at
  length_at_lem pre post n k e hn fits =
      >>=-value (cut n (n + 4)) _ s
        (cut_at pre (be32 k) post n (n + 4) e hn (omega (arith, length-be32 k)))
        (ap (λ b. uint32 b s) (take-append (be32 k) post) ∙ uint32-be32 k s fits)

  -- A field: a string behind its length.
  pub string_at_lem :
      (pre str post : Bytes) (n : ℕ)
      → s.msg.data_slice.store ≡ pre ++ (field str ++ post)
      → n ≡ length pre
      → length str < 2 ^ 32
      → string_at n s ≡ value (str, n + 4 + length str) s
  unfolding ◌>>=◌ string_at field
  string_at_lem pre str post n e hn fits =
      let here : s.msg.data_slice.store ≡ pre ++ (be32 (length str) ++ (str ++ post)) =
        e ∙ ap (λ l. pre ++ l) (append_assoc (be32 (length str)) str post) in
      let there : s.msg.data_slice.store ≡ (pre ++ be32 (length str)) ++ (str ++ post) =
        here ∙ sym (append_assoc pre (be32 (length str)) (str ++ post)) in
      let front = length-append pre (be32 (length str)) in
      >>=-value (length_at n) _ s (length_at_lem pre (str ++ post) n (length str) here hn fits) (
        >>=-value (cut (n + 4) (n + 4 + length str)) _ s
          (cut_at (pre ++ be32 (length str)) str post (n + 4) (n + 4 + length str) there
            (omega (arith, front, length-be32 (length str))) refl)
          (ap (λ b. value (b, n + 4 + length str) s) (take-append str post)))

-- An empty map is not told from a nil map on the wire.
unfoldable pub wire_metadata : Meta → Option Meta
wire_metadata [] = none
wire_metadata (kv ∷ kvs) = some (kv ∷ kvs)

pub parse_metadata_lem :
    (s : State) (kvs : Meta) (pre post : Bytes) (n : ℕ)
    → s.msg.data_slice.store ≡ pre ++ (encode_metadata kvs ++ post)
    → n ≡ length pre
    → length (encode_metadata kvs) < 2 ^ 32
    → Distinct kvs
    → s.msg.metadata ≡ none
    → parse_metadata (length (encode_metadata kvs)) n s
      ≡ value tt (record s { msg = record s.msg { metadata = wire_metadata kvs } })
unfolding ◌>>=◌ parse_metadata wire_metadata
parse_metadata_lem s [] pre post n e hn fits distinct old = unfold encode_metadata in ground arith
parse_metadata_lem s ((k, v) ∷ kvs) pre post n e hn fits distinct old =
    let more : Meta = (k, v) ∷ kvs in
    let enc = encode_metadata more in
    let d : Slice = record { store = enc ++ post; len = length enc } in
    let some_bytes : ltb 0 (length enc) ≡ true =
      lt→ltb 0 (length enc) (omega (arith, length-entry k v kvs)) in
    rw some_bytes (
      >>=-value (cut n (n + length enc)) _ s (cut_at s pre enc post n (n + length enc) e hn refl)
        (rw (decode_metadata-encode_metadata more d post distinct refl fits) refl))

-- What a compressor gives back: `Unzip` undoes `Zip`.
abbrev pub IsLossless : Compressors → Type 0
IsLossless compressors =
    (ct : ℕ) (c : Compressor) (x z : Bytes)
    → compressors ct ≡ some c
    → c.zip x ≡ coded z
    → c.unzip z ≡ coded x

pub compress_type_none : (h : Header) → IsHeader h → compress_type (set_compress_type 0 h) ≡ 0
unfolding view flags_view
compress_type_none h i = ap (λ v. v.flags.compress) (set_compress_type-view 0 h i (omega arith))

pub Coded-cases : (r : Coded) → ((z : Bytes) × (r ≡ coded z)) ⊎ ((x : ℕ) × (r ≡ failed x))
Coded-cases (coded z) = inl (z, refl)
Coded-cases (failed x) = inr (x, refl)

-- The payload that was sent comes back, under the header that was sent with it.
pub decompress_lem :
    (compressors : Compressors) (h : Header) (payload : Bytes) (s : State)
    → IsLossless compressors
    → IsHeader h
    → s.msg.header ≡ (compress_payload compressors h payload).0
    → s.msg.payload ≡ (compress_payload compressors h payload).1
    → decompress compressors s ≡ value tt (record s { msg = record s.msg { payload = payload } })
unfolding decompress compress_payload
decompress_lem compressors h payload s lossless i eh ep = elim (Bool-cases (compress_type h == 0)) [
  | inl plain ↦ ground arith
  | inr packed ↦ elim (Option-cases (compressors (compress_type h))) [
    | inl unknown ↦ ground (arith, compress_type_none h i)
    | inr (c, known) ↦ elim (Coded-cases (c.zip payload)) [
      | inl (z, e) ↦ ground (arith, lossless (compress_type h) c payload z known e)
      | inr (x, e) ↦ ground (arith, compress_type_none h i)
    ]
  ]
]
