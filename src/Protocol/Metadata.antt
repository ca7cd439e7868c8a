-- ===== src/Protocol/Metadata.antt =====
-- Metadata on the wire: `encodeMetadata` and `decodeMetadata` of protocol/message.go.
-- A map is the list of its entries in the order of the iteration.
pub mod Loop
pub mod RoundTrip
use rpcx.Base.{
  ℕ, zero, suc, ◌+◌, ◌-◌, ◌^◌, ◌%◌, List, [], ◌∷◌, ◌++◌, Option, none, some, true, false, Bytes,
  ltb, length, if◌then◌else◌,
}
use rpcx.Base.Dict.{insert, bytes_eq_inst}
use rpcx.Protocol.Wire.{be32, read_be32}
use rpcx.Protocol.Slice.{Slice, slice_bytes, reslice}

abbrev pub Meta : Type 0
Meta = List (Bytes × Bytes)

unfoldable pub encode_metadata : Meta → Bytes
encode_metadata [] = []
encode_metadata ((k, v) ∷ m) =
    be32 (length k) ++ (k ++ (be32 (length v) ++ (v ++ encode_metadata m)))

-- Arithmetic on `uint32`.
abbrev pub wrap : ℕ → ℕ
wrap n = n % 2 ^ 32

-- `binary.BigEndian.Uint32(data[n : n+4])`; `none` is a panic.
unfoldable pub read_u32 : Slice → ℕ → Option ℕ
read_u32 d n = elim (reslice d n (wrap (n + 4))) [
  | none ↦ none
  | some s ↦ read_be32 (slice_bytes s)
]

pub data StringResult : Type 0 where
  str : Bytes → ℕ → StringResult
  short : StringResult
  bounds : StringResult

-- One length and its string, which is to end at `limit` at most: the string and the new `n`.
unfoldable pub read_string : Slice → ℕ → ℕ → StringResult
read_string d n limit = elim (read_u32 d n) [
  | none ↦ bounds
  | some sl ↦
      let start = wrap (n + 4) in
      let end = wrap (start + sl) in
      if ltb limit end
      then short
      else elim (reslice d start end) [ none ↦ bounds | some s ↦ str (slice_bytes s) end ]
]

-- `missing` is `ErrMetaKVMissing` with the map so far, `panics` a slice out of bounds.
-- `stuck` is no Go value: the loop ran out of fuel.
pub data MetaResult : Type 0 where
  decoded : Meta → MetaResult
  missing : Meta → MetaResult
  panics : MetaResult
  stuck : MetaResult

unfoldable pub decode_loop : ℕ → ℕ → Slice → ℕ → Meta → MetaResult
unfolding read_string
decode_loop zero l d n m = stuck
decode_loop (suc f) l d n m = elim (ltb n l) [
  | true ↦ elim (read_string d n (wrap (l + 2 ^ 32 - 4))) [
    | short ↦ missing m
    | bounds ↦ panics
    | str k n1 ↦ elim (read_string d n1 l) [
      | short ↦ missing m
      | bounds ↦ panics
      | str v n2 ↦ decode_loop f l d n2 (insert k v m)
    ]
  ]
  | false ↦ decoded m
]

-- A round takes eight bytes at least, so `l + 1` rounds are enough.
unfoldable pub decode_metadata : ℕ → Slice → MetaResult
unfolding decode_loop
decode_metadata l d = decode_loop (suc l) l d 0 []
