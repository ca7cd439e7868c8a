-- ===== src/Protocol/Message/Ends.antt =====
-- `Decode` ends on every input: no step of it runs out of fuel.
use rpcx.Base.{
  ℕ, ◌+◌, ◌≡◌, ◌≢◌, refl, arith, some, Bytes, Bool, true, false, ltb, Bool-cases, inl, inr,
}
use rpcx.Protocol.Slice.{Slice}
use rpcx.Protocol.Metadata.{decoded, missing, decode_metadata}
use rpcx.Protocol.Metadata
use rpcx.Protocol.Metadata.Loop.{decode_metadata_ends}
use rpcx.Protocol.Message.{Message, Compressors}
use rpcx.Protocol.Message.Decode.{
  DecodeError, Reader, State, Run, value, fails, panics, stuck, M, ◌>>=◌, ◌>>◌, guard, modify, gets,
  read_full, cut, uint32, length_at, string_at, parse_metadata, decompress, decode_start,
  decode_fill, decode_fields, decode_body, out_of_fuel, recovered, decode,
}

-- An action that does not run out of fuel.
record Ends {A : Type 0} (m : M A) : Type 0 where
  never : (s t : State) → m s ≢ stuck t

Ends->>= : {A B : Type 0} {m : M A} {f : A → M B} → Ends m → ((a : A) → Ends (f a)) → Ends (m >>= f)
unfolding ◌>>=◌
Ends->>= {A} {B} {m} {f} h k = record { never = λ s t. go s t (m s) refl }
  where
    go : (s t : State) (r : Run A) → m s ≡ r → (m >>= f) s ≢ stuck t
    go s t (value a u) e = rw (e, ◌>>=◌) ((k a).never u t)
    go s t (fails x u) e = rw (e, ◌>>=◌) (λ p. cc)
    go s t (panics u) e = rw (e, ◌>>=◌) (λ p. cc)
    go s t (stuck u) e = absurd (h.never s u e)

Ends-value : {A : Type 0} (a : A) → Ends (λ s. value a s)
Ends-value a = record { never = λ s t p. cc }

Ends-modify : (f : Message → Message) → Ends (modify f)
Ends-modify f = record { never = λ s t p. cc }

Ends-gets : {A : Type 0} (f : Message → A) → Ends (gets f)
Ends-gets f = record { never = λ s t p. cc }

Ends-guard : (b : Bool) (e : DecodeError) → Ends (guard b e)
Ends-guard true e = record { never = λ s t p. cc }
Ends-guard false e = record { never = λ s t p. cc }

Ends-read_full : (n : ℕ) (put : Bytes → Message → Message) → Ends (read_full n put)
unfolding read_full
Ends-read_full n put = record { never = λ s t p. ground arith }

Ends-cut : (a b : ℕ) → Ends (cut a b)
unfolding cut
Ends-cut a b = record { never = λ s t p. ground arith }

Ends-uint32 : (b : Bytes) → Ends (uint32 b)
unfolding uint32
Ends-uint32 b = record { never = λ s t p. ground arith }

Ends-decompress : (c : Compressors) → Ends (decompress c)
unfolding decompress
Ends-decompress c = record { never = λ s t p. ground arith }

Ends-length_at : (n : ℕ) → Ends (length_at n)
unfolding length_at
Ends-length_at n = Ends->>= (Ends-cut n (n + 4)) (λ d. Ends-uint32 _)

Ends-string_at : (n : ℕ) → Ends (string_at n)
unfolding string_at
Ends-string_at n = Ends->>= (Ends-length_at n) λ l. Ends->>= (Ends-cut _ _) λ d. Ends-value _

MetaResult-Ends :
    (l : ℕ) (d : Slice) (r : Metadata.MetaResult)
    → decode_metadata l d ≡ r
    → Ends {A = Unit {0}} (elim r [
      | decoded kvs ↦ modify (λ m. record m { metadata = some kvs })
      | missing kvs ↦
          modify (λ m. record m { metadata = some kvs }) >> λ s. fails DecodeError.meta_kv_missing s
      | Metadata.panics ↦ λ s. panics s
      | Metadata.stuck ↦ λ s. stuck s
    ])
MetaResult-Ends l d (decoded kvs) e = Ends-modify _
MetaResult-Ends l d (missing kvs) e = unfold ◌>>=◌ in record { never = λ s t p. cc }
MetaResult-Ends l d Metadata.panics e = record { never = λ s t p. cc }
MetaResult-Ends l d Metadata.stuck e = absurd (decode_metadata_ends l d e)

Ends-parse_metadata : (l n : ℕ) → Ends (parse_metadata l n)
unfolding parse_metadata
Ends-parse_metadata l n = elim (Bool-cases (ltb 0 l)) [
  | inl more ↦ rw more (Ends->>= (Ends-cut n (n + l)) λ d. MetaResult-Ends l d _ refl)
  | inr none_left ↦ rw none_left (Ends-value tt)
]

Ends-decode_fields : (c : Compressors) → Ends (decode_fields c)
unfolding decode_fields
Ends-decode_fields c = Ends->>= (Ends-string_at _) λ _. Ends->>= (Ends-modify _) λ _.
    Ends->>= (Ends-string_at _) λ _. Ends->>= (Ends-modify _) λ _. Ends->>= (Ends-length_at _) λ _.
      Ends->>= (Ends-parse_metadata _ _) λ _. Ends->>= (Ends-length_at _) λ _.
        Ends->>= (Ends-gets _)
          λ _. Ends->>= (Ends-cut _ _) λ _. Ends->>= (Ends-modify _) λ _. Ends-decompress c

Ends-decode_start : (max : ℕ) → Ends (decode_start max)
unfolding decode_start
Ends-decode_start max = Ends->>= (Ends-read_full _ _) λ _. Ends->>= (Ends-gets _) λ _.
    Ends->>= (Ends-guard _ _) λ _. Ends->>= (Ends-read_full _ _) λ _.
      Ends->>= (Ends-read_full _ _)
        λ _. Ends->>= (Ends-uint32 _) λ _. Ends->>= (Ends-guard _ _) λ _. Ends-value _

Ends-decode_body : (c : Compressors) (max : ℕ) → Ends (decode_body c max)
unfolding decode_body decode_fill
Ends-decode_body c max = Ends->>= (Ends-decode_start max) λ l.
    Ends->>= (Ends->>= (Ends-modify _) λ _. Ends->>= (Ends-read_full _ _) λ _. Ends-value _)
      λ _. Ends-decode_fields c

-- `Decode` ends on every input, into every message: its only loop has fuel enough.
pub decode_ends :
    (c : Compressors) (max : ℕ) (m : Message) (r : Reader) (t : State)
    → decode c max m r ≢ out_of_fuel t
unfolding decode
decode_ends c max m r t = go (decode_body c max (record { msg = m; reader = r })) refl
  where
    go :
        (x : Run (Unit {0}))
        → decode_body c max (record { msg = m; reader = r }) ≡ x
        → recovered x ≢ out_of_fuel t
    go (value a u) e = λ p. cc
    go (fails x u) e = λ p. cc
    go (panics u) e = λ p. cc
    go (stuck u) e = absurd ((Ends-decode_body c max).never _ u e)
