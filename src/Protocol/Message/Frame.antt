-- ===== src/Protocol/Message/Frame.antt =====
-- What `EncodeSlicePointer` writes, as one list of bytes.
use rpcx.Base.{
  ℕ, ◌+◌, ◌≤◌, ◌≡◌, refl, sym, ap, ◌∙◌, arith, [], ◌∷◌, ◌++◌, Bytes, length, length-append, drop,
  drop_all, length-drop, drop-drop, append-nil, append_assoc,
}
use rpcx.Protocol.Wire.{be32, length-be32}
use rpcx.Protocol.Header.{Header, header_bytes}
use rpcx.Protocol.Metadata.{encode_metadata}
use rpcx.Protocol.Message.{Message, Compressors, entries}
use rpcx.Protocol.Message.Encode.{copy_at, write_frame, compress_payload, encode_slice_pointer}

-- A string behind its length.
unfoldable pub field : Bytes → Bytes
field s = be32 (length s) ++ s

unfoldable pub body : Bytes → Bytes → Bytes → Bytes → Bytes
body sp sm meta payload = field sp ++ (field sm ++ (field meta ++ field payload))

-- The wire format: header, length of the rest, and four fields.
unfoldable pub frame : Header → Bytes → Bytes → Bytes → Bytes → Bytes
frame h sp sm meta payload =
    header_bytes h ++ (be32 (length (body sp sm meta payload)) ++ body sp sm meta payload)

pub length-field : (s : Bytes) → length (field s) ≡ 4 + length s
unfolding field
length-field s = omega (arith, length-append (be32 (length s)) s, length-be32 (length s))

pub length-body :
    (sp sm meta payload : Bytes)
    → length (body sp sm meta payload)
      ≡ (4 + length sp) + (4 + length sm) + (4 + length meta) + (4 + length payload)
unfolding body
length-body sp sm meta payload = omega (
  arith,
  length-append (field sp) (field sm ++ (field meta ++ field payload)),
  length-append (field sm) (field meta ++ field payload),
  length-append (field meta) (field payload),
  length-field sp,
  length-field sm,
  length-field meta,
  length-field payload,
)

-- The first `n` bytes of the buffer are `pre`; the rest is as it was.
record Filled (stale pre : Bytes) (n : ℕ) (buf : Bytes) : Type 0 where
  shape : buf ≡ pre ++ drop n stale
  front : length pre ≡ n

copy_at_front :
    (src stale : Bytes)
    → length src ≤ length stale
    → copy_at 0 src stale ≡ src ++ drop (length src) stale
unfolding copy_at
copy_at_front [] stale h = refl
copy_at_front (x ∷ xs) [] h = absurd (omega arith)
copy_at_front (x ∷ xs) (y ∷ ys) h = ap (λ l. x ∷ l) (copy_at_front xs ys (omega arith))

copy_at_behind :
    (pre src buf : Bytes) → copy_at (length pre) src (pre ++ buf) ≡ pre ++ copy_at 0 src buf
unfolding copy_at
copy_at_behind [] src buf = refl
copy_at_behind (x ∷ xs) src buf = ap (λ l. x ∷ l) (copy_at_behind xs src buf)

-- A write right behind what is filled.
fill_next :
    {stale pre buf : Bytes} {n : ℕ} (src : Bytes) (off : ℕ)
    → Filled stale pre n buf
    → off ≡ n
    → n + length src ≤ length stale
    → Filled stale (pre ++ src) (n + length src) (copy_at off src buf)
fill_next {stale} {pre} {buf} {n} src off f e fits = record {
  shape =
      ap (λ o. copy_at o src buf) (e ∙ sym f.front)
      ∙ ap (copy_at (length pre) src) f.shape
      ∙ copy_at_behind pre src (drop n stale)
      ∙ ap (λ l. pre ++ l)
          (copy_at_front src (drop n stale) (omega (arith, length-drop n stale))
            ∙ ap (λ l. src ++ l) (drop-drop (length src) n stale))
      ∙ sym (append_assoc pre src (drop (n + length src) stale));
  front = omega (arith, length-append pre src, f.front);
}

Filled-whole :
    {stale pre buf : Bytes} {n : ℕ} → Filled stale pre n buf → length stale ≡ n → buf ≡ pre
Filled-whole {stale} {pre} {n = n} f e =
    f.shape ∙ ap (λ l. pre ++ l) (drop_all n stale (omega arith)) ∙ append-nil pre

flat :
    (h sp sm meta payload : Bytes) (t : ℕ)
    → t ≡ length (body sp sm meta payload)
    → h
        ++ be32 t
        ++ be32 (length sp)
        ++ sp
        ++ be32 (length sm)
        ++ sm
        ++ be32 (length meta)
        ++ meta
        ++ be32 (length payload)
        ++ payload
      ≡ h ++ (be32 (length (body sp sm meta payload)) ++ body sp sm meta payload)
flat h sp sm meta payload t e = rw (← e) (unfold body field in simp append_assoc)

-- The buffer ends up as the frame, whatever it held before: each byte is written.
pub write_frame-frame :
    (h : Header) (sp sm meta payload stale : Bytes)
    → length h.seq_bytes ≡ 8
    → length stale
      ≡ 12 + 4 + ((4 + length sp) + (4 + length sm) + (4 + length meta) + (4 + length payload))
    → write_frame h sp sm meta payload stale ≡ frame h sp sm meta payload
write_frame-frame h sp sm meta payload stale hs size =
    let total = (4 + length sp) + (4 + length sm) + (4 + length meta) + (4 + length payload) in
    let head : length (header_bytes h) ≡ 12 = unfold header_bytes in omega arith in
    let l2 = length-be32 total in
    let l3 = length-be32 (length sp) in
    let l5 = length-be32 (length sm) in
    let l7 = length-be32 (length meta) in
    let l9 = length-be32 (length payload) in
    let f0 : Filled stale [] 0 stale = record { shape = refl; front = refl } in
    let f1 = fill_next (header_bytes h) 0 f0 refl (omega arith) in
    let f2 = fill_next (be32 total) 12 f1 (omega arith) (omega arith) in
    let f3 = fill_next (be32 (length sp)) 16 f2 (omega arith) (omega arith) in
    let f4 = fill_next sp 20 f3 (omega arith) (omega arith) in
    let f5 = fill_next (be32 (length sm)) (20 + length sp) f4 (omega arith) (omega arith) in
    let f6 = fill_next sm (24 + length sp) f5 (omega arith) (omega arith) in
    let meta_start = 12 + 4 + (4 + length sp) + (4 + length sm) in
    let f7 = fill_next (be32 (length meta)) meta_start f6 (omega arith) (omega arith) in
    let f8 = fill_next meta (meta_start + 4) f7 (omega arith) (omega arith) in
    let start = meta_start + (4 + length meta) in
    let f9 = fill_next (be32 (length payload)) start f8 (omega arith) (omega arith) in
    let f10 = fill_next payload (start + 4) f9 (omega arith) (omega arith) in
    unfold write_frame in
    Filled-whole f10 (omega arith)
    ∙ unfold frame in
      flat (header_bytes h) sp sm meta payload total (sym (length-body sp sm meta payload))

-- A buffer of the right length from the pool is turned into the frame of the message, with the
-- header and the payload that compression leaves.
pub encode_slice_pointer-frame :
    (get : ℕ → Bytes) (compressors : Compressors) (m : Message)
    → ((n : ℕ) → length (get n) ≡ n)
    → length (compress_payload compressors m.header m.payload).0.seq_bytes ≡ 8
    → let (h, payload) = compress_payload compressors m.header m.payload in
      encode_slice_pointer get compressors m ≡ (
        record m { header = h },
        frame h m.service_path m.service_method (encode_metadata (entries m.metadata)) payload,
      )
unfolding encode_slice_pointer
encode_slice_pointer-frame get compressors m pool hs =
    let (h, payload) = compress_payload compressors m.header m.payload in
    ap (λ (b : Bytes). let p : Message × Bytes = (record m { header = h }, b) in p)
      (write_frame-frame h m.service_path m.service_method (encode_metadata (entries m.metadata))
        payload (get _) hs (pool _))
