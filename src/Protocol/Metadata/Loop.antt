-- ===== src/Protocol/Metadata/Loop.antt =====
-- The loop of `decodeMetadata` ends on every input.
use rpcx.Base.{
  ℕ, zero, suc, ◌+◌, ◌-◌, ◌^◌, ◌≤◌, ◌<◌, ◌≡◌, ◌≢◌, refl, arith, inl, inr, Bytes, ltb, Bool-cases,
  lt→ltb, ◌⊎◌, [],
}
use rpcx.Base.Dict.{insert, bytes_eq_inst}
use rpcx.Protocol.Slice.{Slice, reslice}
use rpcx.Protocol.Metadata.{
  Meta, wrap, read_u32, StringResult, str, short, bounds, read_string, stuck, decode_loop,
  decode_metadata,
}

-- A string that is read takes its length at least, and ends at the limit.
pub read_string_grows :
    (d : Slice) (n limit : ℕ) (s : Bytes) (e : ℕ)
    → read_string d n limit ≡ str s e
    → (n + 4 ≤ e) × (e ≤ limit)
unfolding read_string read_u32 reslice
read_string_grows d n limit s e h = ground arith

StringResult-cases :
    (r : StringResult) → (r ≡ short) ⊎ (r ≡ bounds) ⊎ ((s : Bytes) × (e : ℕ) × (r ≡ str s e))
StringResult-cases (str s e) = inr (inr (s, e, refl))
StringResult-cases short = inl refl
StringResult-cases bounds = inr (inl refl)

-- One round of the loop that reads a key and a value.
pub decode_loop_step :
    (f l : ℕ) (d : Slice) (n n1 n2 : ℕ) (m : Meta) (k v : Bytes)
    → n < l
    → read_string d n (wrap (l + 2 ^ 32 - 4)) ≡ str k n1
    → read_string d n1 l ≡ str v n2
    → decode_loop (suc f) l d n m ≡ decode_loop f l d n2 (insert k v m)
unfolding decode_loop
decode_loop_step f l d n n1 n2 m k v h e1 e2 = rw (lt→ltb n l h, e1, e2, decode_loop)

-- The loop has fuel left when it stops, from any place from which the fuel reaches beyond `l`.
pub decode_loop-ne-stuck :
    (f l : ℕ) (d : Slice) (n : ℕ) (m : Meta) → n ≤ l → l < n + f → decode_loop f l d n m ≢ stuck
decode_loop-ne-stuck zero l d n m h fuel = absurd (omega arith)
decode_loop-ne-stuck (suc f) l d n m h fuel = elim (Bool-cases (ltb n l)) [
  | inr past ↦ unfold decode_loop in rw (past, decode_loop) (λ p. cc)
  | inl more ↦ elim (StringResult-cases (read_string d n (wrap (l + 2 ^ 32 - 4)))) [
    | inl e ↦ unfold decode_loop in rw (more, e, decode_loop) (λ p. cc)
    | inr (inl e) ↦ unfold decode_loop in rw (more, e, decode_loop) (λ p. cc)
    | inr (inr (k, n1, e)) ↦ elim (StringResult-cases (read_string d n1 l)) [
      | inl e' ↦ unfold decode_loop in rw (more, e, e', decode_loop) (λ p. cc)
      | inr (inl e') ↦ unfold decode_loop in rw (more, e, e', decode_loop) (λ p. cc)
      | inr (inr (v, n2, e')) ↦
          let (grows, _) = read_string_grows d n _ k n1 e in
          let (grows', fits) = read_string_grows d n1 l v n2 e' in
          rw (decode_loop_step f l d n n1 n2 m k v (ground arith) e e')
            (decode_loop-ne-stuck f l d n2 (insert k v m) fits (omega arith))
    ]
  ]
]

-- `decodeMetadata` ends on every slice and length: the fuel is enough.
pub decode_metadata_ends : (l : ℕ) (d : Slice) → decode_metadata l d ≢ stuck
unfolding decode_metadata
decode_metadata_ends l d = decode_loop-ne-stuck (suc l) l d 0 [] (omega arith) (omega arith)
