-- ===== src/Protocol/Message/Write.antt =====
-- `WriteTo` of protocol/message.go, over any `io.Writer`.
use rpcx.Base.{
  ℕ, ◌+◌, ◌≡◌, refl, ap, ◌∙◌, arith, ◌++◌, Option, none, some, Bytes, length, append_assoc, ◌==◌,
  if◌then◌else◌, Bool-cases, Option-cases, inl, inr, false, ◌≢◌,
}
use rpcx.Protocol.Wire.{be32}
use rpcx.Protocol.Header.{IsHeader, header_bytes, compress_type, set_compress_type}
use rpcx.Protocol.Metadata.{encode_metadata}
use rpcx.Protocol.Message.{Message, Compressors, coded, failed, entries}
use rpcx.Protocol.Message.Encode.{compress_payload}
use rpcx.Protocol.Message.Frame.{field, body, frame, length-body}
use rpcx.Protocol.Message.Fields.{compress_type_none, Coded-cases}

-- `io.Writer`: the new state, the count and the error.
pub record Writer (W : Type 0) : Type 0 where
  pub write : W → Bytes → W × ℕ × Option ℕ

pub data WriteError : Type 0 where
  unsupported_compressor : WriteError
  write_failed zip_failed : ℕ → WriteError

module _ {W : Type 0} (out : Writer W) where
  -- A write whose failure makes `WriteTo` return the count `n` so far.
  unfoldable pub write_or :
      ℕ → Bytes → W → (W → ℕ → W × ℕ × Option WriteError) → W × ℕ × Option WriteError
  write_or n b w next =
      let (w', nn, err) = out.write w b in
      elim err [ none ↦ next w' nn | some e ↦ (w', n, some (write_failed e)) ]

  -- The writes behind the header. `n` is the count of the header, and the last write's count is
  -- what a success returns.
  unfoldable pub write_rest : ℕ → Message → Bytes → W → W × ℕ × Option WriteError
  write_rest n m payload w =
      let meta = encode_metadata (entries m.metadata) in
      let sp_l = length m.service_path in
      let sm_l = length m.service_method in
      let total_l = (4 + sp_l) + (4 + sm_l) + (4 + length meta) + (4 + length payload) in
      write_or n (be32 total_l) w λ w1 _. write_or n (be32 sp_l) w1 λ w2 _.
        write_or n m.service_path w2 λ w3 _. write_or n (be32 sm_l) w3 λ w4 _.
          write_or n m.service_method w4 λ w5 _. write_or n (be32 (length meta)) w5 λ w6 _.
            write_or n meta w6 λ w7 _. write_or n (be32 (length payload)) w7 λ w8 _.
              let (w9, nn, err) = out.write w8 payload in
              elim err [ none ↦ (w9, nn, none) | some e ↦ (w9, nn, some (write_failed e)) ]

  unfoldable pub write_to : Compressors → Message → W → W × ℕ × Option WriteError
  write_to compressors m w =
      let (w', nn, err) = out.write w (header_bytes m.header) in
      elim err [
        | some e ↦ (w', nn, some (write_failed e))
        | none ↦
            if compress_type m.header == 0
            then write_rest nn m m.payload w'
            else elim (compressors (compress_type m.header)) [
              | none ↦ (w', nn, some unsupported_compressor)
              | some c ↦ elim (c.zip m.payload) [
                | coded z ↦ write_rest nn m z w'
                | failed e ↦ (w', nn, some (zip_failed e))
              ]
            ]
      ]

-- A writer that takes all bytes, such as `bytes.Buffer`.
pub record IsBuffer {W : Type 0} (out : Writer W) (contents : W → Bytes) : Type 0 where
  pub takes : (w : W) (b : Bytes) → contents (out.write w b).0 ≡ contents w ++ b
  pub counts : (w : W) (b : Bytes) → (out.write w b).1 ≡ length b
  pub succeeds : (w : W) (b : Bytes) → (out.write w b).2 ≡ none

module _ {W : Type 0} (out : Writer W) (contents : W → Bytes) (buffer : IsBuffer out contents) where
  write_or_buffer :
      (n : ℕ) (b : Bytes) (w : W) (next : W → ℕ → W × ℕ × Option WriteError)
      → write_or out n b w next ≡ next (out.write w b).0 (out.write w b).1
  unfolding write_or
  write_or_buffer n b w next = rw (buffer.succeeds w b, write_or)

  -- What ends up in the buffer, the count and the error.
  abbrev Wrote : W → Bytes → ℕ → W × ℕ × Option WriteError → Type 0
  Wrote w b n r = (contents r.0 ≡ contents w ++ b) × (r.1 ≡ n) × (r.2 ≡ none)

  write_or-Wrote :
      (n k : ℕ) (b c : Bytes) (w : W) (next : W → ℕ → W × ℕ × Option WriteError)
      → ((u : W) (i : ℕ) → Wrote u c k (next u i))
      → Wrote w (b ++ c) k (write_or out n b w next)
  write_or-Wrote n k b c w next h =
      let (p, q, r) = h (out.write w b).0 (out.write w b).1 in
      rw (write_or_buffer n b w next)
        (p ∙ ap (λ l. l ++ c) (buffer.takes w b) ∙ append_assoc (contents w) b c, q, r)

  last_Wrote :
      (w : W) (b : Bytes)
      → Wrote w b (length b) (
          let (w', nn, err) = out.write w b in
          elim err [ none ↦ (w', nn, none) | some e ↦ (w', nn, some (write_failed e)) ])
  last_Wrote w b = rw (buffer.succeeds w b) (buffer.takes w b, buffer.counts w b, refl)

  -- The pieces in the order in which they are written.
  abbrev pieces : Bytes → Bytes → Bytes → Bytes → Bytes
  pieces sp sm meta payload =
      be32 ((4 + length sp) + (4 + length sm) + (4 + length meta) + (4 + length payload))
      ++ (be32 (length sp)
          ++ (sp
              ++ (be32 (length sm)
                  ++ (sm ++ (be32 (length meta) ++ (meta ++ (be32 (length payload) ++ payload)))))))

  pieces-body :
      (sp sm meta payload : Bytes)
      → pieces sp sm meta payload
        ≡ be32 (length (body sp sm meta payload)) ++ body sp sm meta payload
  pieces-body sp sm meta payload =
      rw (length-body sp sm meta payload) (unfold body field in simp append_assoc)

  write_rest-pieces :
      (n : ℕ) (m : Message) (payload : Bytes) (w : W)
      → Wrote w
          (pieces m.service_path m.service_method (encode_metadata (entries m.metadata)) payload)
          (length payload)
          (write_rest out n m payload w)
  unfolding write_rest
  write_rest-pieces n m payload w =
      let k = length payload in
      write_or-Wrote n k _ _ w _ λ w1 _. write_or-Wrote n k _ _ w1 _ λ w2 _.
        write_or-Wrote n k _ _ w2 _ λ w3 _. write_or-Wrote n k _ _ w3 _ λ w4 _.
          write_or-Wrote n k _ _ w4 _ λ w5 _. write_or-Wrote n k _ _ w5 _ λ w6 _.
            write_or-Wrote n k _ _ w6 _
              λ w7 _. write_or-Wrote n k _ _ w7 _ λ w8 _. last_Wrote w8 payload

  write_rest-Wrote :
      (n : ℕ) (m : Message) (payload : Bytes) (w : W)
      → let inner =
          body m.service_path m.service_method (encode_metadata (entries m.metadata)) payload in
        Wrote w (be32 (length inner) ++ inner) (length payload) (write_rest out n m payload w)
  write_rest-Wrote n m payload w =
      let (p, q, r) = write_rest-pieces n m payload w in
      (p ∙ ap (λ l. contents w ++ l) (pieces-body m.service_path m.service_method _ payload), q, r)

  write_rest-frame :
      (m : Message) (payload : Bytes) (w : W)
      → let (w', nn, _) = out.write w (header_bytes m.header) in
        Wrote w
          (frame m.header m.service_path m.service_method
            (encode_metadata (entries m.metadata))
            payload)
          (length payload)
          (write_rest out nn m payload w')
  unfolding frame
  write_rest-frame m payload w =
      let (w', nn, _) = out.write w (header_bytes m.header) in
      let (p, q, r) = write_rest-Wrote nn m payload w' in
      let inner =
        body m.service_path m.service_method (encode_metadata (entries m.metadata)) payload in
      let behind : Bytes = be32 (length inner) ++ inner in
      (
        p
            ∙ ap (λ l. l ++ behind) (buffer.takes w (header_bytes m.header))
            ∙ append_assoc (contents w) (header_bytes m.header) behind,
        q,
        r,
      )

  -- Where `EncodeSlicePointer` can encode a message as its header says, `WriteTo` writes the same
  -- frame into a buffer and succeeds; the count that it returns is the length of the payload alone.
  pub write_to-frame :
      (compressors : Compressors) (m : Message) (w : W)
      → IsHeader m.header
      → let (h, sent) = compress_payload compressors m.header m.payload in
        h ≡ m.header
        → let r = write_to out compressors m w in
          (contents r.0
            ≡ contents w
              ++ frame h m.service_path m.service_method
                  (encode_metadata (entries m.metadata))
                  sent)
          × (r.1 ≡ length sent)
          × (r.2 ≡ none)
  unfolding write_to compress_payload
  write_to-frame compressors m w i same =
      let ok = buffer.succeeds w (header_bytes m.header) in
      let ct = compress_type m.header in
      elim (Bool-cases (ct == 0)) [
        | inl plain ↦ rw (ok, plain, write_to, compress_payload) (write_rest-frame m m.payload w)
        | inr packed ↦ elim (Option-cases (compressors ct)) [
          | inl unknown ↦ absurd (cleared packed (rw (packed, unknown, compress_payload) at same))
          | inr (c, known) ↦ elim (Coded-cases (c.zip m.payload)) [
            | inl (z, e) ↦
                rw (ok, packed, known, e, write_to, compress_payload) (write_rest-frame m z w)
            | inr (x, e) ↦ absurd (cleared packed (rw (packed, known, e, compress_payload) at same))
          ]
        ]
      ]
    where
      cleared : (compress_type m.header == 0) ≡ false → set_compress_type 0 m.header ≡ m.header → ⊥
      cleared packed e = ground (arith, ap compress_type e, compress_type_none m.header i)

  -- Where it cannot (no such compressor, or `Zip` fails), `WriteTo` fails, and has written the
  -- header.
  pub write_to_unsupported :
      (compressors : Compressors) (m : Message) (w : W)
      → IsHeader m.header
      → (compress_payload compressors m.header m.payload).0 ≢ m.header
      → let r = write_to out compressors m w in
        (contents r.0 ≡ contents w ++ header_bytes m.header) × (r.1 ≡ 12) × (r.2 ≢ none)
  unfolding write_to compress_payload
  write_to_unsupported compressors m w i other =
      let ok = buffer.succeeds w (header_bytes m.header) in
      let head : length (header_bytes m.header) ≡ 12 =
        unfold header_bytes in omega (arith, i.seq_length) in
      let taken = buffer.takes w (header_bytes m.header) in
      let count = buffer.counts w (header_bytes m.header) ∙ head in
      let ct = compress_type m.header in
      elim (Bool-cases (ct == 0)) [
        | inl plain ↦ absurd (other (rw (plain, compress_payload)))
        | inr packed ↦ elim (Option-cases (compressors ct)) [
          | inl unknown ↦ rw (ok, packed, unknown, write_to) (taken, count, λ p. cc)
          | inr (c, known) ↦ elim (Coded-cases (c.zip m.payload)) [
            | inl (z, e) ↦ absurd (other (rw (packed, known, e, compress_payload)))
            | inr (x, e) ↦ rw (ok, packed, known, e, write_to) (taken, count, λ p. cc)
          ]
        ]
      ]
