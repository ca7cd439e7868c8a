-- ===== src/Protocol/Message/Faults.antt =====
-- `Decode` on input that is cut short, refused or malformed.
use rpcx.Base.{
  ℕ, ◌+◌, ◌^◌, ◌<◌, ◌≡◌, ◌≢◌, refl, ap, ◌∙◌, arith, [], ◌∷◌, ◌++◌, none, some, Bytes, Bool, false,
  length, length-append, append-nil, ltb, ◌&&◌, drop_all, replicate, length-replicate,
}
use rpcx.Protocol.Wire.{be32, length-be32}
use rpcx.Protocol.Slice.{reslice, nil_slice, allocate}
use rpcx.Protocol.Header.{Header, header_bytes, magic_number, check_magic_number}
use rpcx.Protocol.Message.{Message, new_message, Compressors}
use rpcx.Protocol.Message.Decode.{
  DecodeError, too_long, wrong_magic, Reader, State, fails, panics, M, ◌>>=◌, ◌>>◌, guard,
  read_full, put_magic, cut, length_at, string_at, decode_start, decode_fill, decode_fields,
  decode_body, returns, recovered, decode, read,
}
use rpcx.Protocol.Message.RoundTrip.{
  >>=-value, read_magic, decode_start-guard, at, filled, decode_start-frame, decode_fill-frame,
}
use rpcx.Protocol.Message.Fields.{length_at_lem}

>>=-panics :
    {A B : Type 0} (m : M A) (f : A → M B) (s : State) {t : State}
    → m s ≡ panics t
    → (m >>= f) s ≡ panics t
unfolding ◌>>=◌
>>=-panics m f s e = rw (e, ◌>>=◌)

pub >>=-fails :
    {A B : Type 0} (m : M A) (f : A → M B) (s : State) {x : DecodeError} {t : State}
    → m s ≡ fails x t
    → (m >>= f) s ≡ fails x t
unfolding ◌>>=◌
>>=-fails m f s e = rw (e, ◌>>=◌)

>>-guard-fails :
    {B : Type 0} (b : Bool) (x : DecodeError) (k : M B) (s : State)
    → b ≡ false
    → (guard b x >> k) s ≡ fails x s
unfolding ◌>>=◌
>>-guard-fails b x k s e = rw (e, ◌>>=◌, ◌>>◌)

bad_magic : (h : Header) → h.magic ≢ magic_number → check_magic_number h ≡ false
unfolding check_magic_number
bad_magic h e = ground arith

-- A string that is longer than the array.
string_at_overlong :
    (s : State) (pre tail : Bytes) (n k : ℕ)
    → s.msg.data_slice.store ≡ pre ++ (be32 k ++ tail)
    → n ≡ length pre
    → k < 2 ^ 32
    → length tail < k
    → string_at n s ≡ panics s
unfolding string_at ◌>>=◌
string_at_overlong s pre tail n k e hn hk over =
    >>=-value (length_at n) _ s (length_at_lem s pre tail n k e hn hk) (
      >>=-panics (cut (n + 4) (n + 4 + k)) _ s (
        unfold cut reslice in
        ground (
          arith,
          ap length e,
          length-append pre (be32 k ++ tail),
          length-append (be32 k) tail,
          length-be32 k,
        )))

-- A new message's array holds the frame's rest and nothing else.
filled_nil : (b : Bytes) → (filled nil_slice b).store ≡ b
unfolding filled nil_slice allocate
filled_nil b =
    let zero_byte : ℕ = 0 in
    ground (
      arith,
      drop_all (length b) (replicate (length b) zero_byte),
      length-replicate (length b) zero_byte,
      append-nil b,
    )

-- A first byte other than the magic number is refused, and nothing behind it is read.
pub decode_wrong_magic :
    (c : Compressors) (max b : ℕ) (m : Message) (r : Reader) (rest : Bytes)
    → b ≢ magic_number
    → decode c max m (record r { stream = b ∷ rest })
      ≡ returns
          (some (wrong_magic b))
          (at r rest (record m { header = record m.header { magic = b } }))
unfolding ◌>>=◌ decode decode_body decode_start
decode_wrong_magic c max b m r rest h =
    let m1 : Message = record m { header = record m.header { magic = b } } in
    ap recovered (
      >>=-fails (decode_start max) _ (at r (b ∷ rest) m) (
        >>=-value (read_full 1 put_magic) _ (at r (b ∷ rest) m) (read_magic r b rest m)
          (>>-guard-fails _ _ _ (at r rest m1) (bad_magic m1.header h))))

-- A frame whose length is above `MaxMessageLength`, if that is set, is refused by its length: the
-- rest stays in the reader.
pub decode_too_long :
    (c : Compressors) (max : ℕ) (r : Reader) (h : Header) (m : Message) (l : ℕ) (rest : Bytes)
    → h.magic ≡ magic_number
    → length h.seq_bytes ≡ 8
    → length m.header.seq_bytes ≡ 8
    → l < 2 ^ 32
    → 0 < max
    → max < l
    → decode c max m (record r { stream = header_bytes h ++ (be32 l ++ rest) })
      ≡ returns (some too_long) (at r rest (record m { header = h }))
unfolding decode decode_body
decode_too_long c max r h m l rest magic size old fits set over = ap recovered (
    >>=-fails (decode_start max) _ (at r (header_bytes h ++ (be32 l ++ rest)) m) (
      decode_start-guard max m r h l rest magic size old fits
      ∙ >>-guard-fails _ _ _ (at r rest (record m { header = h })) (ground arith)))

-- The panic on a service path that is longer than the frame is recovered, and `Read` returns no
-- error: the message has the header, and no path, method, metadata or payload.
pub read_overlong_path :
    (c : Compressors) (max : ℕ) (r : Reader) (h : Header) (k : ℕ) (tail rest : Bytes)
    → h.magic ≡ magic_number
    → length h.seq_bytes ≡ 8
    → k < 2 ^ 32
    → length (be32 k ++ tail) < 2 ^ 32
    → length tail < k
    → ltb 0 max && ltb max (length (be32 k ++ tail)) ≡ false
    → let inner = be32 k ++ tail in
      read c max (record r { stream = header_bytes h ++ (be32 (length inner) ++ (inner ++ rest)) })
      ≡ returns none
          (at r rest (record new_message { header = h; data_slice = filled nil_slice inner }))
unfolding ◌>>=◌ read decode decode_body decode_fields filled new_message
read_overlong_path c max r h k tail rest magic size hk fits over allowed =
    let inner = be32 k ++ tail in
    let m1 : Message = record new_message { header = h } in
    let m2 : Message = record m1 { data_slice = filled nil_slice inner } in
    ap recovered (
      >>=-value (decode_start max) _
        (at r (header_bytes h ++ (be32 (length inner) ++ (inner ++ rest))) new_message)
        (decode_start-frame max new_message r h (length inner) (inner ++ rest) magic size
          (unfold new_message in refl) fits allowed)
        (>>=-value (decode_fill (length inner)) _ (at r (inner ++ rest) m1)
          (decode_fill-frame r m1 inner rest)
          (>>=-panics (string_at 0) _ (at r rest m2)
            (string_at_overlong (at r rest m2) [] tail 0 k (filled_nil inner) refl hk over))))
