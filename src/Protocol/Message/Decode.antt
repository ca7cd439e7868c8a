-- ===== src/Protocol/Message/Decode.antt =====
-- `Decode` and `Read` of protocol/message.go. The reader is the bytes that are still to come and
-- the error behind them; strings are copied where the source shares the message's array.
use rpcx.Base.{
  ℕ, ◌+◌, [], ◌∷◌, Option, none, some, Bytes, Bool, true, false, length, ◌==◌, ltb, leb, ◌&&◌, not,
  take, drop, if◌then◌else◌,
}
use rpcx.Protocol.Wire.{read_be32}
use rpcx.Protocol.Slice.{Slice, slice_bytes, reslice, allocate, fill}
use rpcx.Protocol.Header.{Header, new_header, check_magic_number, compress_type}
use rpcx.Protocol.Metadata.{decoded, missing, decode_metadata}
use rpcx.Protocol.Metadata
use rpcx.Protocol.Message.{Message, new_message, Compressors, coded, failed}

pub data DecodeError : Type 0 where
  eof unexpected_eof too_long meta_kv_missing unsupported_compressor : DecodeError
  wrong_magic io unzip_failed : ℕ → DecodeError

pub record Reader : Type 0 where
  pub stream : Bytes
  pub final : DecodeError

pub record State : Type 0 where
  pub msg : Message
  pub reader : Reader

-- How the body of `Decode` ends. `stuck` is no Go value: a loop of the model has no fuel left.
pub data Run (A : Type 0) : Type 0 where
  value : A → State → Run A
  fails : DecodeError → State → Run A
  panics : State → Run A
  stuck : State → Run A

abbrev pub M : Type 0 → Type 0
M A = State → Run A

infixl 5 ◌>>=◌ ◌>>◌
unfoldable pub ◌>>=◌ : {A B : Type 0} → M A → (A → M B) → M B
◌>>=◌ m f s = elim (m s) [
  | value a t ↦ f a t
  | fails e t ↦ fails e t
  | panics t ↦ panics t
  | stuck t ↦ stuck t
]

abbrev pub ◌>>◌ : {B : Type 0} → M (Unit {0}) → M B → M B
m >> k = m >>= λ _. k

abbrev pub guard : Bool → DecodeError → M (Unit {0})
guard true e s = value tt s
guard false e s = fails e s

abbrev pub modify : (Message → Message) → M (Unit {0})
modify f s = value tt (record s { msg = f s.msg })

abbrev pub gets : {A : Type 0} → (Message → A) → M A
gets f s = value (f s.msg) s

-- The error of `io.ReadFull` when the reader ends after the bytes that it got.
unfoldable pub short_error : Bytes → DecodeError → DecodeError
short_error [] e = e
short_error (b ∷ bs) eof = unexpected_eof
short_error (b ∷ bs) e = e

-- `io.ReadFull(r, buf)` with a buffer of `n` bytes in the message: `put` says where they go.
unfoldable pub read_full : ℕ → (Bytes → Message → Message) → M Bytes
read_full n put s =
    let got = take n s.reader.stream in
    let t : State = record {
      msg = put got s.msg;
      reader = record s.reader { stream = drop n s.reader.stream };
    } in
    if leb n (length s.reader.stream)
    then value got t
    else fails (short_error s.reader.stream s.reader.final) t

-- `m.Header[:1]`
unfoldable pub put_magic : Bytes → Message → Message
put_magic [] m = m
put_magic (b ∷ _) m = record m { header = record m.header { magic = b } }

unfoldable pub header_of : Bytes → Header
header_of (a ∷ b ∷ c ∷ d ∷ rest) = record {
  magic = a;
  version = b;
  flags = c;
  kind = d;
  seq_bytes = rest;
}
header_of _ = new_header

-- `m.Header[1:]`
unfoldable pub put_header : Bytes → Message → Message
unfolding header_of fill
put_header got m =
    let h = m.header in
    record m {
      header = header_of (h.magic ∷ fill got (h.version ∷ h.flags ∷ h.kind ∷ h.seq_bytes));
    }

-- `data`, which is `m.data`.
unfoldable pub put_data : Bytes → Message → Message
unfolding fill
put_data got m = record m {
  data_slice = record m.data_slice { store = fill got m.data_slice.store };
}

-- `data[a:b]`
unfoldable pub cut : ℕ → ℕ → M Slice
cut a b s = elim (reslice s.msg.data_slice a b) [ none ↦ panics s | some d ↦ value d s ]

-- `binary.BigEndian.Uint32(b)`
unfoldable pub uint32 : Bytes → M ℕ
uint32 b s = elim (read_be32 b) [ none ↦ panics s | some n ↦ value n s ]

-- `binary.BigEndian.Uint32(data[n : n+4])`
unfoldable pub length_at : ℕ → M ℕ
length_at n = do d ← cut n (n + 4); uint32 (slice_bytes d)

-- A string that starts behind its length at `n`, and where it ends.
unfoldable pub string_at : ℕ → M (Bytes × ℕ)
string_at n = do
  l ← length_at n
  let end = n + 4 + l
  d ← cut (n + 4) end
  λ s. value (slice_bytes d, end) s

-- The metadata of length `l` at `n`.
unfoldable pub parse_metadata : ℕ → ℕ → M (Unit {0})
parse_metadata l n =
    let parse : M (Unit {0}) = cut n (n + l) >>= λ d. elim (decode_metadata l d) [
      | decoded kvs ↦ modify (λ m. record m { metadata = some kvs })
      | missing kvs ↦ modify (λ m. record m { metadata = some kvs }) >> λ s. fails meta_kv_missing s
      | Metadata.panics ↦ λ s. panics s
      | Metadata.stuck ↦ λ s. stuck s
    ] in
    if ltb 0 l then parse else (λ s. value tt s)

unfoldable pub decompress : Compressors → M (Unit {0})
decompress compressors s =
    let ct = compress_type s.msg.header in
    if ct == 0 then value tt s else elim (compressors ct) [
      | none ↦ fails unsupported_compressor s
      | some c ↦ elim (c.unzip s.msg.payload) [
        | coded p ↦ value tt (record s { msg = record s.msg { payload = p } })
        | failed e ↦ fails (unzip_failed e) (record s { msg = record s.msg { payload = [] } })
      ]
    ]

-- From the first byte to the length of the rest.
unfoldable pub decode_start : ℕ → M ℕ
decode_start max = do
  _ ← read_full 1 put_magic
  h ← gets (λ m. m.header)
  guard (check_magic_number h) (wrong_magic h.magic)
  _ ← read_full 11 put_header
  len_data ← read_full 4 (λ _ m. m)
  l ← uint32 len_data
  guard (not (ltb 0 max && ltb max l)) too_long
  λ s. value l s

-- The rest, of length `l`, into the message's array.
unfoldable pub decode_fill : ℕ → M (Unit {0})
decode_fill l = do
  modify (λ m. record m { data_slice = allocate m.data_slice l })
  _ ← read_full l put_data
  λ s. value tt s

-- The fields of the rest.
unfoldable pub decode_fields : Compressors → M (Unit {0})
decode_fields compressors = do
  (sp, n1) ← string_at 0
  modify (λ m. record m { service_path = sp })
  (sm, n2) ← string_at n1
  modify (λ m. record m { service_method = sm })
  l ← length_at n2
  parse_metadata l (n2 + 4)
  _ ← length_at (n2 + 4 + l)
  len ← gets (λ m. m.data_slice.len)
  p ← cut (n2 + 4 + l + 4) len
  modify (λ m. record m { payload = slice_bytes p })
  decompress compressors

unfoldable pub decode_body : Compressors → ℕ → M (Unit {0})
decode_body compressors max = do l ← decode_start max; decode_fill l; decode_fields compressors

-- What `Decode` returns, and the state that it leaves.
pub data DecodeResult : Type 0 where
  returns : Option DecodeError → State → DecodeResult
  out_of_fuel : State → DecodeResult

-- `Decode` recovers from a panic and then returns its unnamed result, which is nil.
abbrev pub recovered : Run (Unit {0}) → DecodeResult
recovered (value _ s) = returns none s
recovered (fails e s) = returns (some e) s
recovered (panics s) = returns none s
recovered (stuck s) = out_of_fuel s

-- `max` is `MaxMessageLength`.
unfoldable pub decode : Compressors → ℕ → Message → Reader → DecodeResult
decode compressors max m r =
    recovered (decode_body compressors max (record { msg = m; reader = r }))

-- `Read`; on an error its caller does not get the message that the result has.
unfoldable pub read : Compressors → ℕ → Reader → DecodeResult
read compressors max r = decode compressors max new_message r
