-- ===== src/Protocol/Message/RoundTrip.antt =====
-- `Decode` reads back the frame that `EncodeSlicePointer` wrote.
use rpcx.Base.{
  ℕ, ◌^◌, ◌<◌, ◌≡◌, refl, sym, ap, ◌∙◌, arith, [], ◌∷◌, ◌++◌, some, Bytes, Bool, true, false,
  length, length-append, take-append, drop-append, drop_all, append-nil, ltb, ◌&&◌, not, drop, take,
}
use rpcx.Protocol.Wire.{be32, read_be32, length-be32, read_be32-be32}
use rpcx.Protocol.Slice.{Slice, allocate, allocate_fits, fill}
use rpcx.Protocol.Header.{Header, header_bytes, magic_number, check_magic_number}
use rpcx.Protocol.Message.{Message}
use rpcx.Protocol.Message.Decode.{
  DecodeError, Reader, State, Run, value, M, ◌>>=◌, ◌>>◌, guard, read_full, put_magic, put_header,
  put_data, uint32, decode_start, decode_fill,
}

-- A read that the stream can serve.
pub read_full_at :
    (n : ℕ) (put : Bytes → Message → Message) (s : State) (got rest : Bytes)
    → s.reader.stream ≡ got ++ rest
    → length got ≡ n
    → read_full n put s
      ≡ value got (record { msg = put got s.msg; reader = record s.reader { stream = rest } })
unfolding read_full
read_full_at n put s got rest e size =
    let taken : take n s.reader.stream ≡ got =
      ap (λ k. take k s.reader.stream) (sym size)
      ∙ ap (take (length got)) e
      ∙ take-append got rest in
    let left : drop n s.reader.stream ≡ rest =
      ap (λ k. drop k s.reader.stream) (sym size)
      ∙ ap (drop (length got)) e
      ∙ drop-append got rest in
    ground (arith, taken, left, ap length e, length-append got rest)

-- The header that is read takes the place of the old one.
put_header_lem :
    (h : Header) (m : Message)
    → m.header.magic ≡ h.magic
    → length m.header.seq_bytes ≡ length h.seq_bytes
    → put_header (h.version ∷ h.flags ∷ h.kind ∷ h.seq_bytes) m ≡ record m { header = h }
unfolding put_header
put_header_lem h m em size =
    ground (arith, drop_all (length h.seq_bytes) m.header.seq_bytes, append-nil h.seq_bytes)

pub >>=-value :
    {A B : Type 0} (m : M A) (f : A → M B) (s : State) {a : A} {t : State} {r : Run B}
    → m s ≡ value a t
    → f a t ≡ r
    → (m >>= f) s ≡ r
unfolding ◌>>=◌
>>=-value m f s {r = r} e k = rw (e, ◌>>=◌) k

pub >>-guard :
    {B : Type 0} (b : Bool) (x : DecodeError) (k : M B) (s : State) {r : Run B}
    → b ≡ true
    → k s ≡ r
    → (guard b x >> k) s ≡ r
unfolding ◌>>=◌
>>-guard b x k s e h = rw (e, ◌>>=◌, ◌>>◌) h

pub uint32-be32 : (l : ℕ) (s : State) → l < 2 ^ 32 → uint32 (be32 l) s ≡ value l s
unfolding uint32
uint32-be32 l s h =
    let e : read_be32 (be32 l) ≡ some l =
      ap read_be32 (sym (append-nil (be32 l))) ∙ read_be32-be32 l [] h in
    rw (e, uint32)

abbrev pub at : Reader → Bytes → Message → State
at r b m = record { msg = m; reader = record r { stream = b } }

pub read_magic :
    (r : Reader) (b : ℕ) (rest : Bytes) (m : Message)
    → read_full 1 put_magic (at r (b ∷ rest) m)
      ≡ value (b ∷ []) (at r rest (record m { header = record m.header { magic = b } }))
unfolding put_magic
read_magic r b rest m = read_full_at 1 put_magic (at r (b ∷ rest) m) (b ∷ []) rest refl refl

pub read_header :
    (r : Reader) (h : Header) (rest : Bytes) (m : Message)
    → length h.seq_bytes ≡ 8
    → length m.header.seq_bytes ≡ 8
    → let tail = h.version ∷ h.flags ∷ h.kind ∷ h.seq_bytes in
      let m1 = record m { header = record m.header { magic = h.magic } } in
      read_full 11 put_header (at r (tail ++ rest) m1)
      ≡ value tail (at r rest (record m { header = h }))
read_header r h rest m size old =
    let tail : Bytes = h.version ∷ h.flags ∷ h.kind ∷ h.seq_bytes in
    let m1 : Message = record m { header = record m.header { magic = h.magic } } in
    read_full_at 11 put_header (at r (tail ++ rest) m1) tail rest refl (omega arith)
    ∙ ap (λ x. value tail (at r rest x)) (put_header_lem h m1 refl (omega arith))

pub good_magic : (h : Header) → h.magic ≡ magic_number → check_magic_number h ≡ true
unfolding check_magic_number
good_magic h e = ground arith

-- Up to the test of the length.
pub decode_start-guard :
    (max : ℕ) (m : Message) (r : Reader) (h : Header) (l : ℕ) (rest : Bytes)
    → h.magic ≡ magic_number
    → length h.seq_bytes ≡ 8
    → length m.header.seq_bytes ≡ 8
    → l < 2 ^ 32
    → decode_start max (at r (header_bytes h ++ (be32 l ++ rest)) m)
      ≡ (guard (not (ltb 0 max && ltb max l)) DecodeError.too_long >> λ s. value l s)
          (at r rest (record m { header = h }))
unfolding ◌>>=◌ decode_start header_bytes
decode_start-guard max m r h l rest magic size old fits =
    let tail : Bytes = h.version ∷ h.flags ∷ h.kind ∷ h.seq_bytes in
    let m1 : Message = record m { header = record m.header { magic = h.magic } } in
    let m2 : Message = record m { header = h } in
    >>=-value (read_full 1 put_magic) _ (at r (header_bytes h ++ (be32 l ++ rest)) m)
      (read_magic r h.magic (tail ++ (be32 l ++ rest)) m)
      (>>-guard _ _ _ (at r (tail ++ (be32 l ++ rest)) m1) (good_magic m1.header magic) (
        >>=-value (read_full 11 put_header) _ (at r (tail ++ (be32 l ++ rest)) m1)
          (read_header r h (be32 l ++ rest) m size old)
          (>>=-value (read_full 4 (λ _ x. x)) _ (at r (be32 l ++ rest) m2)
            (read_full_at 4 (λ _ x. x) (at r (be32 l ++ rest) m2) (be32 l) rest refl
              (length-be32 l))
            (>>=-value (uint32 (be32 l)) _ (at r rest m2) (uint32-be32 l (at r rest m2) fits)
              refl))))

pub decode_start-frame :
    (max : ℕ) (m : Message) (r : Reader) (h : Header) (l : ℕ) (rest : Bytes)
    → h.magic ≡ magic_number
    → length h.seq_bytes ≡ 8
    → length m.header.seq_bytes ≡ 8
    → l < 2 ^ 32
    → ltb 0 max && ltb max l ≡ false
    → decode_start max (at r (header_bytes h ++ (be32 l ++ rest)) m)
      ≡ value l (at r rest (record m { header = h }))
decode_start-frame max m r h l rest magic size old fits allowed =
    decode_start-guard max m r h l rest magic size old fits
    ∙ >>-guard _ _ _ (at r rest (record m { header = h })) (ap not allowed) refl

-- The array after `decode_fill`.
unfoldable pub filled : Slice → Bytes → Slice
filled d b = record { store = b ++ drop (length b) (allocate d (length b)).store; len = length b }

pub decode_fill-frame :
    (r : Reader) (m : Message) (b rest : Bytes)
    → decode_fill (length b) (at r (b ++ rest) m)
      ≡ value tt (at r rest (record m { data_slice = filled m.data_slice b }))
unfolding ◌>>=◌ decode_fill filled put_data fill
decode_fill-frame r m b rest =
    let m1 : Message = record m { data_slice = allocate m.data_slice (length b) } in
    >>=-value (read_full (length b) put_data) (λ _ s. value tt s) (at r (b ++ rest) m1)
      (read_full_at (length b) put_data (at r (b ++ rest) m1) b rest refl refl)
      (ground (arith, allocate_fits m.data_slice (length b)))
