-- ===== src/Protocol/Message/Truncated.antt =====
-- `Decode` on a frame that is cut short.
use rpcx.Base.{
  ℕ, zero, suc, ◌+◌, ◌-◌, ◌^◌, ◌<◌, ◌≡◌, refl, ap, arith, [], ◌∷◌, ◌++◌, some, Bytes, Bool, true,
  false, length, drop, take, ltb, ◌&&◌, not, ◌⊎◌, inl, inr, length-take-le, take_past,
}
use native.Mathlib.Decide.{dec_lt}
use rpcx.Protocol.Wire.{be32, length-be32}
use rpcx.Protocol.Header.{Header, header_bytes, magic_number}
use rpcx.Protocol.Message.{Message, Compressors}
use rpcx.Protocol.Message.Decode.{
  DecodeError, eof, unexpected_eof, Reader, State, Run, value, fails, M, ◌>>=◌, ◌>>◌, guard,
  short_error, uint32, read_full, put_magic, put_header, put_data, decode_start, decode_fill,
  decode_body, returns, recovered, decode,
}
use rpcx.Protocol.Message.RoundTrip.{
  >>=-value, >>-guard, read_magic, read_header, good_magic, at, decode_start-frame,
}
use rpcx.Protocol.Message.Faults.{>>=-fails}

-- A run that ends with `EOF` or `ErrUnexpectedEOF`.
abbrev CutShort : {A : Type 0} → Run A → Type 0
CutShort r = (e : DecodeError) × (s : State) × ((e ≡ eof) ⊎ (e ≡ unexpected_eof)) × (r ≡ fails e s)

CutShort->>= :
    {A B : Type 0} (m : M A) (f : A → M B) (s : State) → CutShort (m s) → CutShort ((m >>= f) s)
CutShort->>= m f s (e, t, k, p) = (e, t, k, >>=-fails m f s p)

-- Past a step that succeeds.
CutShort-next :
    {A B : Type 0} (m : M A) (f : A → M B) (s t : State) (a : A)
    → m s ≡ value a t
    → CutShort (f a t)
    → CutShort ((m >>= f) s)
CutShort-next m f s t a p (e, u, k, q) = (e, u, k, >>=-value m f s p q)

CutShort-guard :
    {B : Type 0} (b : Bool) (x : DecodeError) (f : M B) (s : State)
    → b ≡ true
    → CutShort (f s)
    → CutShort ((guard b x >> f) s)
CutShort-guard b x f s p (e, u, k, q) = (e, u, k, >>-guard b x f s p q)

short_error_eof : (b : Bytes) → (short_error b eof ≡ eof) ⊎ (short_error b eof ≡ unexpected_eof)
unfolding short_error
short_error_eof [] = inl refl
short_error_eof (x ∷ xs) = inr refl

-- A reader that is to end at its last byte.
abbrev pub ends_in : Bytes → Reader
ends_in b = record { stream = b; final = eof }

read_full_short :
    (n : ℕ) (put : Bytes → Message → Message) (b : Bytes) (m : Message)
    → length b < n
    → CutShort (read_full n put (record { msg = m; reader = ends_in b }))
unfolding read_full
read_full_short n put b m h = (
  short_error b eof,
  record { msg = put (take n b) m; reader = ends_in (drop n b) },
  short_error_eof b,
  ground arith,
)

module _ (max : ℕ) (m : Message) (h : Header) (inner : Bytes) (magic : h.magic ≡ magic_number)
    (size : length h.seq_bytes ≡ 8) (old : length m.header.seq_bytes ≡ 8)
    (fits : length inner < 2 ^ 32) where
  abbrev rest : Bytes
  rest = be32 (length inner) ++ inner

  abbrev tail : Bytes
  tail = h.version ∷ h.flags ∷ h.kind ∷ h.seq_bytes

  -- Behind the magic number, when the header is still to come.
  after_magic :
      (b : Bytes)
      → CutShort (
          (read_full 11 put_header >>= λ _. read_full 4 (λ _ x. x) >>= λ len_data.
          uint32 len_data >>= λ l.
          guard (not (ltb 0 max && ltb max l)) DecodeError.too_long >> λ s. value l s)
            (at (ends_in []) b (record m { header = record m.header { magic = h.magic } })))
      → CutShort (decode_start max (at (ends_in []) (h.magic ∷ b) m))
  unfolding decode_start
  after_magic b c =
      let m1 : Message = record m { header = record m.header { magic = h.magic } } in
      CutShort-next (read_full 1 put_magic) _ (at (ends_in []) (h.magic ∷ b) m)
        (at (ends_in []) b m1) _ (read_magic (ends_in []) h.magic b m)
        (CutShort-next _ _ _ (at (ends_in []) b m1) m1.header refl
          (CutShort-guard _ _ _ (at (ends_in []) b m1) (good_magic m1.header magic) c))

  start_in_header :
      (n : ℕ)
      → n < 12
      → CutShort (decode_start max (at (ends_in []) (take n (header_bytes h ++ rest)) m))
  unfolding decode_start header_bytes
  start_in_header zero k =
      CutShort->>= (read_full 1 put_magic) _ (at (ends_in []) [] m)
        (read_full_short 1 put_magic [] m (omega arith))
  start_in_header (suc n) k = after_magic (take n (tail ++ rest)) (
      CutShort->>= (read_full 11 put_header) _ _ (
        read_full_short 11 put_header (take n (tail ++ rest)) _
          (omega (arith, length-take-le n (tail ++ rest)))))

  start_in_length :
      (n : ℕ)
      → n < 4
      → CutShort (decode_start max (at (ends_in []) (header_bytes h ++ take n rest) m))
  unfolding header_bytes
  start_in_length n k =
      let m2 : Message = record m { header = h } in
      after_magic (tail ++ take n rest) (
        CutShort-next (read_full 11 put_header) _ _ (at (ends_in []) (take n rest) m2) _
          (read_header (ends_in []) h (take n rest) m size old)
          (CutShort->>= (read_full 4 (λ _ x. x)) _ _
            (read_full_short 4 (λ _ x. x) (take n rest) m2 (omega (arith, length-take-le n rest)))))

  fill_short :
      (n : ℕ)
      → n < length inner
      → CutShort (decode_fill (length inner) (at (ends_in []) (take n inner) m))
  unfolding decode_fill
  fill_short n k = CutShort-next _ _ _ _ tt refl (
      CutShort->>= (read_full (length inner) put_data) _ _ (
        read_full_short (length inner) put_data (take n inner) _
          (omega (arith, length-take-le n inner))))

body_truncated :
    (c : Compressors) (max : ℕ) (m : Message) (h : Header) (inner : Bytes) (n : ℕ)
    → h.magic ≡ magic_number
    → length h.seq_bytes ≡ 8
    → length m.header.seq_bytes ≡ 8
    → length inner < 2 ^ 32
    → ltb 0 max && ltb max (length inner) ≡ false
    → n < 16 + length inner
    → CutShort (
        decode_body c max
          (at (ends_in []) (take n (header_bytes h ++ (be32 (length inner) ++ inner))) m))
unfolding decode_body
body_truncated c max m h inner n magic size old fits allowed short =
    let head : length (header_bytes h) ≡ 12 = unfold header_bytes in omega arith in
    let whole = be32 (length inner) ++ inner in
    let m1 : Message = record m { header = h } in
    elim (dec_lt n 12) [
      | yes in_header ↦
          CutShort->>= (decode_start max) _ _
            (start_in_header max m h inner magic size old fits n in_header)
      | no past_header ↦ rw (take_past n (header_bytes h) whole (omega arith)) (elim (dec_lt n 16) [
        | yes in_length ↦ CutShort->>= (decode_start max) _ _ (
            start_in_length max m h inner magic size old fits (n - length (header_bytes h))
              (omega arith))
        | no past_length ↦
            let k = n - length (header_bytes h) - length (be32 (length inner)) in
            rw
              (take_past (n - length (header_bytes h)) (be32 (length inner)) inner
                (omega (arith, length-be32 (length inner))))
              (CutShort-next (decode_start max) _ _ (at (ends_in []) (take k inner) m1)
                (length inner)
                (decode_start-frame max m (ends_in []) h (length inner) (take k inner) magic size
                  old fits allowed)
                (CutShort->>= (decode_fill (length inner)) _ _ (
                  fill_short max m1 h inner magic size size fits k
                    (omega (arith, length-be32 (length inner))))))
      ])
    ]

-- A stream that ends inside a frame makes `Decode` return `EOF` or `ErrUnexpectedEOF`, wherever
-- it ends. The frame has the magic number and a length below 2^32 and `MaxMessageLength`, if that
-- is set.
pub decode_truncated :
    (c : Compressors) (max : ℕ) (m : Message) (h : Header) (inner : Bytes) (n : ℕ)
    → h.magic ≡ magic_number
    → length h.seq_bytes ≡ 8
    → length m.header.seq_bytes ≡ 8
    → length inner < 2 ^ 32
    → ltb 0 max && ltb max (length inner) ≡ false
    → n < 16 + length inner
    → (e : DecodeError) × (s : State) × ((e ≡ eof) ⊎ (e ≡ unexpected_eof))
      × (decode c max m (ends_in (take n (header_bytes h ++ (be32 (length inner) ++ inner))))
          ≡ returns (some e) s)
unfolding decode
decode_truncated c max m h inner n magic size old fits allowed short =
    let (e, s, k, p) = body_truncated c max m h inner n magic size old fits allowed short in
    (e, s, k, ap recovered p)
