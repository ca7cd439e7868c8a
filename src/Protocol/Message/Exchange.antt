-- ===== src/Protocol/Message/Exchange.antt =====
-- What one side encodes the other decodes.
use rpcx.Base.{
  ℕ, ◌+◌, ◌^◌, ◌<◌, ◌≡◌, refl, sym, ap, ◌∙◌, arith, [], ◌++◌, none, Bytes, take-append, false,
  length, length-append, append_assoc, ltb, ◌&&◌,
}
use rpcx.Base.Dict.{Distinct, bytes_eq_inst}
use rpcx.Protocol.Wire.{be32, length-be32}
use rpcx.Protocol.Header.{Header, IsHeader, header_bytes, magic_number, set_compress_type}
use rpcx.Protocol.Metadata.{Meta, encode_metadata}
use rpcx.Protocol.Message.{Message, Compressors, entries}
use rpcx.Protocol.Message.Encode.{compress_payload, encode_slice_pointer}
use rpcx.Protocol.Message.Frame.{
  field, body, frame, length-field, length-body, encode_slice_pointer-frame,
}
use rpcx.Protocol.Message.Decode.{
  Reader, State, value, ◌>>=◌, length_at, string_at, parse_metadata, cut, decompress, decode_start,
  decode_fill, decode_fields, decode_body, returns, recovered, decode,
}
use rpcx.Protocol.Message.RoundTrip.{>>=-value, at, filled, decode_start-frame, decode_fill-frame}
use rpcx.Protocol.Message.Fields.{
  cut_at, length_at_lem, string_at_lem, wire_metadata, parse_metadata_lem, IsLossless,
  decompress_lem,
}

-- The array at each of the places from which `Decode` reads.
module _ (sp sm enc payload extra : Bytes) where
  abbrev array : Bytes
  array = body sp sm enc payload ++ extra

  at_sp : array ≡ [] ++ (field sp ++ (field sm ++ (field enc ++ (field payload ++ extra))))
  unfolding body
  at_sp = simp append_assoc

  at_sm : array ≡ field sp ++ (field sm ++ (field enc ++ (field payload ++ extra)))
  unfolding body
  at_sm = simp append_assoc

  abbrev names : Bytes
  names = field sp ++ field sm

  at_length : array ≡ names ++ (be32 (length enc) ++ (enc ++ (field payload ++ extra)))
  unfolding body
  at_length = unfold field in simp append_assoc

  at_meta : array ≡ (names ++ be32 (length enc)) ++ (enc ++ (field payload ++ extra))
  at_meta = at_length ∙ sym (append_assoc names (be32 (length enc)) _)

  abbrev front : Bytes
  front = (names ++ be32 (length enc)) ++ enc

  at_size : array ≡ front ++ (be32 (length payload) ++ (payload ++ extra))
  at_size =
      at_meta
      ∙ sym (append_assoc (names ++ be32 (length enc)) enc _)
      ∙ ap (λ l. front ++ l) (unfold field in append_assoc (be32 (length payload)) payload extra)

  at_payload : array ≡ (front ++ be32 (length payload)) ++ (payload ++ extra)
  at_payload = at_size ∙ sym (append_assoc front (be32 (length payload)) (payload ++ extra))

  length-names : length names ≡ 0 + 4 + length sp + 4 + length sm
  length-names =
      omega (arith, length-append (field sp) (field sm), length-field sp, length-field sm)

  length-front : length front ≡ length names + 4 + length enc
  length-front = omega (
    arith,
    length-append (names ++ be32 (length enc)) enc,
    length-append names (be32 (length enc)),
    length-be32 (length enc),
  )

-- The fields of a well-formed array, whatever stands behind them.
decode_fields-body :
    (compressors : Compressors) (h : Header) (sp sm payload extra : Bytes) (kvs : Meta)
    (m : Message) (r : Reader)
    → IsLossless compressors
    → IsHeader h
    → Distinct kvs
    → m.metadata ≡ none
    → let (h', sent) = compress_payload compressors h payload in
      let rest = body sp sm (encode_metadata kvs) sent in
      let m1 = record m {
        header = h';
        data_slice = record { store = rest ++ extra; len = length rest };
      } in
      length rest < 2 ^ 32
      → decode_fields compressors (record { msg = m1; reader = r })
        ≡ value tt (record {
          msg = record m1 {
            service_path = sp;
            service_method = sm;
            metadata = wire_metadata kvs;
            payload = payload;
          };
          reader = r;
        })
unfolding ◌>>=◌ decode_fields
decode_fields-body compressors h sp sm payload extra kvs m r lossless i distinct em fits =
    let (h', sent) = compress_payload compressors h payload in
    let enc = encode_metadata kvs in
    let rest = body sp sm enc sent in
    let size = length-body sp sm enc sent in
    let ln = length-names sp sm enc sent extra in
    let lf = length-front sp sm enc sent extra in
    let n1 = 0 + 4 + length sp in
    let n2 = n1 + 4 + length sm in
    let st : Message → State = λ x. record { msg = x; reader = r } in
    let m1 : Message = record m {
      header = h';
      data_slice = record { store = rest ++ extra; len = length rest };
    } in
    let m2 : Message = record m1 { service_path = sp } in
    let m3 : Message = record m2 { service_method = sm } in
    let m4 : Message = record m3 { metadata = wire_metadata kvs } in
    let m5 : Message = record m4 { payload = sent } in
    >>=-value (string_at 0) _ (st m1)
      (string_at_lem (st m1) [] sp _ 0 (at_sp sp sm enc sent extra) refl (omega arith))
      (>>=-value (string_at n1) _ (st m2)
        (string_at_lem (st m2) (field sp) sm _ n1 (at_sm sp sm enc sent extra)
          (omega (arith, length-field sp)) (omega arith))
        (>>=-value (length_at n2) _ (st m3)
          (length_at_lem (st m3) (names sp sm enc sent extra) _ n2 (length enc)
            (at_length sp sm enc sent extra) (omega arith) (omega arith))
          (>>=-value (parse_metadata (length enc) (n2 + 4)) _ (st m3)
            (parse_metadata_lem (st m3) kvs (names sp sm enc sent extra ++ be32 (length enc)) _
              (n2 + 4) (at_meta sp sm enc sent extra)
              (omega (
                arith,
                length-append (names sp sm enc sent extra) (be32 (length enc)),
                length-be32 (length enc),
              ))
              (omega arith) distinct em)
            (>>=-value (length_at (n2 + 4 + length enc)) _ (st m4)
              (length_at_lem (st m4) (front sp sm enc sent extra) _ (n2 + 4 + length enc)
                (length sent) (at_size sp sm enc sent extra) (omega arith) (omega arith))
              (>>=-value (cut (n2 + 4 + length enc + 4) (length rest)) _ (st m4)
                (cut_at (st m4) (front sp sm enc sent extra ++ be32 (length sent)) sent extra
                  (n2 + 4 + length enc + 4) (length rest) (at_payload sp sm enc sent extra)
                  (omega (
                    arith,
                    length-append (front sp sm enc sent extra) (be32 (length sent)),
                    length-be32 (length sent),
                  ))
                  (omega arith))
                (ap (λ b. decompress compressors (st (record m4 { payload = b })))
                    (take-append sent extra)
                  ∙ decompress_lem compressors h payload (st m5) lossless i refl refl))))))

-- Compression leaves the magic number and the sequence number alone.
compress_payload_keeps :
    (compressors : Compressors) (h : Header) (payload : Bytes)
    → let h' = (compress_payload compressors h payload).0 in
      (h'.magic ≡ h.magic) × (h'.seq_bytes ≡ h.seq_bytes)
unfolding compress_payload set_compress_type
compress_payload_keeps compressors h payload = ground arith

decode_body-frame :
    (compressors : Compressors) (max : ℕ) (h : Header) (sp sm payload : Bytes) (kvs : Meta)
    (receiver : Message) (r : Reader) (rest : Bytes)
    → IsLossless compressors
    → IsHeader h
    → h.magic ≡ magic_number
    → Distinct kvs
    → length receiver.header.seq_bytes ≡ 8
    → receiver.metadata ≡ none
    → let (h', sent) = compress_payload compressors h payload in
      let inner = body sp sm (encode_metadata kvs) sent in
      length inner < 2 ^ 32
      → ltb 0 max && ltb max (length inner) ≡ false
      → decode_body compressors max
          (at r (header_bytes h' ++ (be32 (length inner) ++ (inner ++ rest))) receiver)
        ≡ value tt (
            at r rest (record {
              header = h';
              service_path = sp;
              service_method = sm;
              metadata = wire_metadata kvs;
              payload = payload;
              data_slice = filled receiver.data_slice inner;
            }))
unfolding ◌>>=◌ decode_body filled
decode_body-frame compressors max h sp sm payload kvs receiver r rest lossless i magic distinct size
      em fits allowed =
    let (h', sent) = compress_payload compressors h payload in
    let (same_magic, same_seq) = compress_payload_keeps compressors h payload in
    let inner = body sp sm (encode_metadata kvs) sent in
    let m1 : Message = record receiver { header = h' } in
    >>=-value (decode_start max) _
      (at r (header_bytes h' ++ (be32 (length inner) ++ (inner ++ rest))) receiver)
      (decode_start-frame max receiver r h' (length inner) (inner ++ rest) (same_magic ∙ magic)
        (ap length same_seq ∙ i.seq_length) size fits allowed)
      (>>=-value (decode_fill (length inner)) _ (at r (inner ++ rest) m1)
        (decode_fill-frame r m1 inner rest)
        (decode_fields-body compressors h sp sm payload _ kvs receiver (record r { stream = rest })
          lossless i distinct em fits))

-- A message that one side encodes comes back on the other, with its names, metadata and payload,
-- under the header that was sent; the reader stands behind it, and `data` holds the frame's rest.
-- This needs a header with the magic number, distinct metadata keys, compressors whose `Unzip`
-- undoes `Zip`, a frame whose rest is shorter than 2^32 bytes and no longer than
-- `MaxMessageLength`, if that is set, and buffers of the asked length from the pool. The receiving
-- message may have been used before, with its metadata cleared. Empty metadata comes back as the
-- nil map.
pub decode-encode :
    (get : ℕ → Bytes) (compressors : Compressors) (max : ℕ) (m receiver : Message) (r : Reader)
    (rest : Bytes)
    → ((n : ℕ) → length (get n) ≡ n)
    → IsLossless compressors
    → IsHeader m.header
    → m.header.magic ≡ magic_number
    → Distinct (entries m.metadata)
    → length receiver.header.seq_bytes ≡ 8
    → receiver.metadata ≡ none
    → let (h, sent) = compress_payload compressors m.header m.payload in
      let inner =
        body m.service_path m.service_method (encode_metadata (entries m.metadata)) sent in
      length inner < 2 ^ 32
      → ltb 0 max && ltb max (length inner) ≡ false
      → decode compressors max receiver
          (record r { stream = (encode_slice_pointer get compressors m).1 ++ rest })
        ≡ returns none (record {
          msg = record {
            header = h;
            service_path = m.service_path;
            service_method = m.service_method;
            metadata = wire_metadata (entries m.metadata);
            payload = m.payload;
            data_slice = filled receiver.data_slice inner;
          };
          reader = record r { stream = rest };
        })
unfolding decode
decode-encode get compressors max m receiver r rest pool lossless i magic distinct size em fits
      allowed =
    let (h, sent) = compress_payload compressors m.header m.payload in
    let (_, same_seq) = compress_payload_keeps compressors m.header m.payload in
    let inner = body m.service_path m.service_method (encode_metadata (entries m.metadata)) sent in
    let wire : (encode_slice_pointer get compressors m).1 ++ rest
        ≡ header_bytes h ++ (be32 (length inner) ++ (inner ++ rest)) =
      ap (λ p. p.1 ++ rest)
        (encode_slice_pointer-frame get compressors m pool (ap length same_seq ∙ i.seq_length))
      ∙ unfold frame in simp append_assoc in
    ap (λ b. recovered (decode_body compressors max (at r b receiver))) wire
    ∙ ap recovered (
        decode_body-frame compressors max m.header m.service_path m.service_method m.payload
          (entries m.metadata) receiver r rest lossless i magic distinct size em fits allowed)
