-- ===== src/Protocol/Metadata/RoundTrip.antt =====
-- `decodeMetadata` reads back what `encodeMetadata` wrote.
use rpcx.Base.{
  ℕ, zero, suc, ◌+◌, ◌-◌, ◌^◌, ◌≤◌, ◌<◌, ◌≡◌, refl, sym, ap, ◌∙◌, arith, [], ◌∷◌, ◌++◌, some, Bytes,
  length, length-append, append_assoc, append-nil, take-append,
}
use rpcx.Base.Dict.{insert, bytes_eq_inst, Distinct, insert_all, insert_all_new}
use rpcx.Protocol.Wire.{be32, length-be32, read_be32-be32}
use rpcx.Protocol.Slice.{Slice, reslice_at}
use rpcx.Protocol.Metadata.{
  Meta, wrap, encode_metadata, read_u32, str, read_string, decoded, decode_loop, decode_metadata,
}
use rpcx.Protocol.Metadata.Loop.{decode_loop_step}

-- The length that stands at `n`.
pub read_u32_at :
    (d : Slice) (pre post : Bytes) (n k : ℕ)
    → d.store ≡ pre ++ (be32 k ++ post)
    → n ≡ length pre
    → n + 4 < 2 ^ 32
    → k < 2 ^ 32
    → read_u32 d n ≡ some k
unfolding read_u32
read_u32_at d pre post n k e hn fits hk =
    rw
      (
        reslice_at d pre (be32 k) post n (wrap (n + 4)) e hn (omega (arith, length-be32 k)),
        read_u32,
      )
      (rw (take-append (be32 k) post, ← append-nil (be32 k)) (read_be32-be32 k [] hk))

-- The string that stands behind its length.
read_string_at :
    (d : Slice) (pre s post : Bytes) (n limit : ℕ)
    → d.store ≡ pre ++ (be32 (length s) ++ (s ++ post))
    → n ≡ length pre
    → n + 4 + length s ≤ limit
    → limit < 2 ^ 32
    → read_string d n limit ≡ str s (n + 4 + length s)
unfolding read_string
read_string_at d pre s post n limit e hn fits hl =
    let after : d.store ≡ (pre ++ be32 (length s)) ++ (s ++ post) =
      e ∙ sym (append_assoc pre (be32 (length s)) (s ++ post)) in
    let start : wrap (n + 4) ≡ length (pre ++ be32 (length s)) =
      omega (arith, length-append pre (be32 (length s)), length-be32 (length s)) in
    ground (
      arith,
      read_u32_at d pre (s ++ post) n (length s) e hn (omega arith) (omega arith),
      reslice_at d (pre ++ be32 (length s)) s post (wrap (n + 4)) (wrap (wrap (n + 4) + length s))
          after start (omega arith),
      take-append s post,
    )

pub length-entry :
    (k v : Bytes) (m : Meta)
    → length (encode_metadata ((k, v) ∷ m)) ≡ 8 + length k + length v + length (encode_metadata m)
unfolding encode_metadata
length-entry k v m =
    let rest = encode_metadata m in
    omega (
      arith,
      length-append (be32 (length k)) (k ++ (be32 (length v) ++ (v ++ rest))),
      length-be32 (length k),
      length-append k (be32 (length v) ++ (v ++ rest)),
      length-append (be32 (length v)) (v ++ rest),
      length-be32 (length v),
      length-append v rest,
    )

-- Behind a length and its string.
length-past : (pre s : Bytes) → length (pre ++ (be32 (length s) ++ s)) ≡ length pre + 4 + length s
length-past pre s = omega (
  arith,
  length-append pre (be32 (length s) ++ s),
  length-append (be32 (length s)) s,
  length-be32 (length s),
)

past :
    (pre s post : Bytes)
    → pre ++ (be32 (length s) ++ (s ++ post)) ≡ (pre ++ (be32 (length s) ++ s)) ++ post
past pre s post = simp append_assoc

decode_loop-encode :
    (kvs m : Meta) (f l : ℕ) (d : Slice) (pre post : Bytes) (n : ℕ)
    → d.store ≡ pre ++ (encode_metadata kvs ++ post)
    → n ≡ length pre
    → l ≡ n + length (encode_metadata kvs)
    → l < 2 ^ 32
    → length (encode_metadata kvs) < f
    → decode_loop f l d n m ≡ decoded (insert_all m kvs)
unfolding insert_all
decode_loop-encode kvs m zero l d pre post n e hn hl fits hf = absurd (omega arith)
decode_loop-encode [] m (suc f) l d pre post n e hn hl fits hf =
    unfold decode_loop encode_metadata in ground arith
decode_loop-encode ((k, v) ∷ kvs) m (suc f) l d pre post n e hn hl fits hf =
    let size = length-entry k v kvs in
    let rest = encode_metadata kvs in
    let at_key : d.store
        ≡ pre ++ (be32 (length k) ++ (k ++ (be32 (length v) ++ (v ++ (rest ++ post))))) =
      unfold encode_metadata in e ∙ simp append_assoc in
    let at_value : d.store
        ≡ (pre ++ (be32 (length k) ++ k)) ++ (be32 (length v) ++ (v ++ (rest ++ post))) =
      at_key ∙ past pre k (be32 (length v) ++ (v ++ (rest ++ post))) in
    let at_rest : d.store
        ≡ ((pre ++ (be32 (length k) ++ k)) ++ (be32 (length v) ++ v)) ++ (rest ++ post) =
      at_value ∙ past (pre ++ (be32 (length k) ++ k)) v (rest ++ post) in
    let key_end = length-past pre k in
    let value_end = length-past (pre ++ (be32 (length k) ++ k)) v in
    decode_loop_step f l d n (n + 4 + length k) (n + 4 + length k + 4 + length v) m k v
      (omega arith)
      (read_string_at d pre k _ n (wrap (l + 2 ^ 32 - 4)) at_key hn (omega arith) (omega arith))
      (read_string_at d (pre ++ (be32 (length k) ++ k)) v (rest ++ post) (n + 4 + length k) l
        at_value (omega arith) (omega arith) fits)
    ∙ decode_loop-encode kvs (insert k v m) f l d
        ((pre ++ (be32 (length k) ++ k)) ++ (be32 (length v) ++ v)) post
        (n + 4 + length k + 4 + length v) at_rest (omega arith) (omega arith) fits (omega arith)

-- On a slice that starts with the encoding of entries with distinct keys, `decodeMetadata` gives
-- these entries in their order, if the encoding is shorter than 2^32 bytes.
pub decode_metadata-encode_metadata :
    (kvs : Meta) (d : Slice) (post : Bytes)
    → Distinct kvs
    → d.store ≡ encode_metadata kvs ++ post
    → length (encode_metadata kvs) < 2 ^ 32
    → decode_metadata (length (encode_metadata kvs)) d ≡ decoded kvs
unfolding decode_metadata
decode_metadata-encode_metadata kvs d post distinct e fits =
    decode_loop-encode kvs [] (suc (length (encode_metadata kvs))) _ d [] post 0 e refl
      (omega arith) fits (omega arith)
    ∙ ap decoded (insert_all_new [] kvs distinct)
