-- ===== src/Protocol/Message/Encode.antt =====
-- `EncodeSlicePointer` of protocol/message.go, which fills a used buffer at computed offsets.
use rpcx.Base.{ℕ, zero, suc, ◌+◌, [], ◌∷◌, none, some, Bytes, length, ◌==◌, if◌then◌else◌}
use rpcx.Protocol.Wire.{be32}
use rpcx.Protocol.Header.{Header, header_bytes, set_compress_type, compress_type}
use rpcx.Protocol.Metadata.{encode_metadata}
use rpcx.Protocol.Message.{Message, Compressors, coded, failed, entries}

-- The header and the payload that are written: a message that cannot be compressed is sent as it
-- is, and its header says so.
unfoldable pub compress_payload : Compressors → Header → Bytes → Header × Bytes
compress_payload compressors h payload =
    if compress_type h == 0 then (h, payload) else elim (compressors (compress_type h)) [
      | none ↦ (set_compress_type 0 h, payload)
      | some c ↦ elim (c.zip payload) [
        | coded z ↦ (h, z)
        | failed _ ↦ (set_compress_type 0 h, payload)
      ]
    ]

-- `copy(buf[off:], src)`
unfoldable pub copy_at : ℕ → Bytes → Bytes → Bytes
copy_at zero [] buf = buf
copy_at zero (x ∷ xs) [] = []
copy_at zero (x ∷ xs) (y ∷ ys) = x ∷ copy_at zero xs ys
copy_at (suc n) src [] = []
copy_at (suc n) src (y ∷ ys) = y ∷ copy_at n src ys

-- The writes into the buffer, in their order.
unfoldable pub write_frame : Header → Bytes → Bytes → Bytes → Bytes → Bytes → Bytes
write_frame h sp sm meta payload buf =
    let sp_l = length sp in
    let sm_l = length sm in
    let total_l = (4 + sp_l) + (4 + sm_l) + (4 + length meta) + (4 + length payload) in
    let meta_start = 12 + 4 + (4 + sp_l) + (4 + sm_l) in
    let pay_load_start = meta_start + (4 + length meta) in
    let b1 = copy_at 0 (header_bytes h) buf in
    let b2 = copy_at 12 (be32 total_l) b1 in
    let b3 = copy_at 16 (be32 sp_l) b2 in
    let b4 = copy_at 20 sp b3 in
    let b5 = copy_at (20 + sp_l) (be32 sm_l) b4 in
    let b6 = copy_at (24 + sp_l) sm b5 in
    let b7 = copy_at meta_start (be32 (length meta)) b6 in
    let b8 = copy_at (meta_start + 4) meta b7 in
    let b9 = copy_at pay_load_start (be32 (length payload)) b8 in
    copy_at (pay_load_start + 4) payload b9

-- `bufferPool.Get(n)` is the argument `get`. The header is shared with the caller, so the result
-- has the message with the header that is left to it.
unfoldable pub encode_slice_pointer : (ℕ → Bytes) → Compressors → Message → Message × Bytes
encode_slice_pointer get compressors m =
    let meta = encode_metadata (entries m.metadata) in
    let (h, payload) = compress_payload compressors m.header m.payload in
    let total_l =
      (4 + length m.service_path)
      + (4 + length m.service_method)
      + (4 + length meta)
      + (4 + length payload) in
    (
      record m { header = h },
      write_frame h m.service_path m.service_method meta payload (get (12 + 4 + total_l)),
    )
