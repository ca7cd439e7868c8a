-- ===== src/Protocol/Message/Consumes.antt =====
-- `Decode` takes bytes from its reader and puts none back.
use rpcx.Base.{
  ℕ, suc, ◌+◌, ◌≤◌, ◌<◌, ◌≡◌, refl, arith, none, some, Bytes, Bool, true, false, ltb, Bool-cases,
  inl, inr, length, length-drop, drop, leb, ap, subst, on_bool, on_option,
}
use rpcx.Protocol.Slice.{Slice, reslice}
use rpcx.Protocol.Wire.{read_be32}
use rpcx.Protocol.Metadata.{decoded, missing, decode_metadata}
use rpcx.Protocol.Metadata
use rpcx.Protocol.Message.{Message, Compressors}
use rpcx.Protocol.Message.Decode.{
  DecodeError, Reader, State, Run, value, fails, panics, stuck, M, ◌>>=◌, ◌>>◌, guard, modify, gets,
  read_full, cut, uint32, length_at, string_at, parse_metadata, decompress, decode_start,
  decode_fill, decode_fields, decode_body, returns, recovered, decode,
}

-- The state in which an action ends.
abbrev end_of : {A : Type 0} → Run A → State
end_of (value _ s) = s
end_of (fails _ s) = s
end_of (panics s) = s
end_of (stuck s) = s

abbrev left : State → ℕ
left s = length s.reader.stream

record Shrinks {A : Type 0} (m : M A) : Type 0 where
  no_more : (s : State) → left (end_of (m s)) ≤ left s

bind-left :
    {A B : Type 0} (n : ℕ) (f : A → M B) (r : Run A)
    → left (end_of r) ≤ n
    → ((a : A) → Shrinks (f a))
    → left (
        end_of (elim r [
          | value a t ↦ f a t
          | fails e t ↦ fails e t
          | panics t ↦ panics t
          | stuck t ↦ stuck t
        ]))
      ≤ n
bind-left n f (value a u) le k = omega (arith, (k a).no_more u)
bind-left n f (fails x u) le k = le
bind-left n f (panics u) le k = le
bind-left n f (stuck u) le k = le

Shrinks->>= :
    {A B : Type 0} {m : M A} {f : A → M B}
    → Shrinks m
    → ((a : A) → Shrinks (f a))
    → Shrinks (m >>= f)
unfolding ◌>>=◌
Shrinks->>= {m = m} {f = f} h k = record {
  no_more = λ s. bind-left (left s) f (m s) (h.no_more s) k;
}

Shrinks-same : {A : Type 0} {m : M A} → ((s : State) → (end_of (m s)).reader ≡ s.reader) → Shrinks m
Shrinks-same h = record { no_more = λ s. omega (arith, ap (λ (r : Reader). length r.stream) (h s)) }

Shrinks-value : {A : Type 0} (a : A) → Shrinks (λ s. value a s)
Shrinks-value a = Shrinks-same λ s. refl

Shrinks-modify : (f : Message → Message) → Shrinks (modify f)
Shrinks-modify f = Shrinks-same λ s. refl

Shrinks-gets : {A : Type 0} (f : Message → A) → Shrinks (gets f)
Shrinks-gets f = Shrinks-same λ s. refl

Shrinks-guard : (b : Bool) (e : DecodeError) → Shrinks (guard b e)
Shrinks-guard true e = Shrinks-same λ s. refl
Shrinks-guard false e = Shrinks-same λ s. refl

read_full-left :
    (n : ℕ) (put : Bytes → Message → Message) (s : State)
    → left (end_of (read_full n put s)) ≡ length (drop n s.reader.stream)
unfolding read_full
read_full-left n put s =
    on_bool (λ (r : Run Bytes). left (end_of r) ≡ length (drop n s.reader.stream))
      (leb n (length s.reader.stream)) refl refl

Shrinks-read_full : (n : ℕ) (put : Bytes → Message → Message) → Shrinks (read_full n put)
Shrinks-read_full n put = record {
  no_more = λ s. omega (arith, read_full-left n put s, length-drop n s.reader.stream);
}

Shrinks-cut : (a b : ℕ) → Shrinks (cut a b)
unfolding cut
Shrinks-cut a b = Shrinks-same λ s.
    on_option (λ (r : Run Slice). (end_of r).reader ≡ s.reader) (reslice s.msg.data_slice a b) refl
      (λ _. refl)

Shrinks-uint32 : (b : Bytes) → Shrinks (uint32 b)
unfolding uint32
Shrinks-uint32 b =
    Shrinks-same
      λ s. on_option (λ (r : Run ℕ). (end_of r).reader ≡ s.reader) (read_be32 b) refl (λ _. refl)

Shrinks-decompress : (c : Compressors) → Shrinks (decompress c)
unfolding decompress
Shrinks-decompress c = Shrinks-same λ s. ground arith

Shrinks-length_at : (n : ℕ) → Shrinks (length_at n)
unfolding length_at
Shrinks-length_at n = Shrinks->>= (Shrinks-cut n (n + 4)) (λ d. Shrinks-uint32 _)

Shrinks-string_at : (n : ℕ) → Shrinks (string_at n)
unfolding string_at
Shrinks-string_at n =
    Shrinks->>= (Shrinks-length_at n) λ l. Shrinks->>= (Shrinks-cut _ _) λ d. Shrinks-value _

MetaResult-Shrinks :
    (r : Metadata.MetaResult)
    → Shrinks {A = Unit {0}} (elim r [
      | decoded kvs ↦ modify (λ m. record m { metadata = some kvs })
      | missing kvs ↦
          modify (λ m. record m { metadata = some kvs }) >> λ s. fails DecodeError.meta_kv_missing s
      | Metadata.panics ↦ λ s. panics s
      | Metadata.stuck ↦ λ s. stuck s
    ])
MetaResult-Shrinks (decoded kvs) = Shrinks-modify _
MetaResult-Shrinks (missing kvs) = unfold ◌>>=◌ in Shrinks-same λ s. refl
MetaResult-Shrinks Metadata.panics = Shrinks-same λ s. refl
MetaResult-Shrinks Metadata.stuck = Shrinks-same λ s. refl

Shrinks-parse_metadata : (l n : ℕ) → Shrinks (parse_metadata l n)
unfolding parse_metadata
Shrinks-parse_metadata l n =
    on_bool (λ (m : M (Unit {0})). Shrinks m) (ltb 0 l)
      (Shrinks->>= (Shrinks-cut n (n + l)) λ d. MetaResult-Shrinks (decode_metadata l d))
      (Shrinks-value tt)

Shrinks-decode_fields : (c : Compressors) → Shrinks (decode_fields c)
unfolding decode_fields
Shrinks-decode_fields c = Shrinks->>= (Shrinks-string_at _) λ _. Shrinks->>= (Shrinks-modify _) λ _.
    Shrinks->>= (Shrinks-string_at _) λ _. Shrinks->>= (Shrinks-modify _) λ _.
      Shrinks->>= (Shrinks-length_at _) λ _. Shrinks->>= (Shrinks-parse_metadata _ _) λ _.
        Shrinks->>= (Shrinks-length_at _) λ _. Shrinks->>= (Shrinks-gets _) λ _.
          Shrinks->>= (Shrinks-cut _ _)
            λ _. Shrinks->>= (Shrinks-modify _) λ _. Shrinks-decompress c

Shrinks-decode_fill : (l : ℕ) → Shrinks (decode_fill l)
unfolding decode_fill
Shrinks-decode_fill l =
    Shrinks->>= (Shrinks-modify _) λ _. Shrinks->>= (Shrinks-read_full _ _) λ _. Shrinks-value _

-- An action after which, unless it fails, fewer bytes are left.
abbrev Took : {A : Type 0} → ℕ → Run A → Type 0
Took n (value _ s) = left s < n
Took n (fails _ s) = Unit {0}
Took n (panics s) = left s < n
Took n (stuck s) = Unit {0}

record Takes {A : Type 0} (m : M A) : Type 0 where
  some_byte : (s : State) → Took (left s) (m s)

Took-end_of : {A : Type 0} (n : ℕ) (r : Run A) → left (end_of r) < n → Took n r
Took-end_of n (value _ s) h = h
Took-end_of n (fails _ s) h = tt
Took-end_of n (panics s) h = h
Took-end_of n (stuck s) h = tt

bind-Took :
    {A B : Type 0} (n : ℕ) (f : A → M B) (r : Run A)
    → Took n r
    → ((a : A) → Shrinks (f a))
    → Took n (elim r [
      | value a t ↦ f a t
      | fails e t ↦ fails e t
      | panics t ↦ panics t
      | stuck t ↦ stuck t
    ])
bind-Took n f (value a u) took k = Took-end_of n (f a u) (omega (arith, (k a).no_more u))
bind-Took n f (fails x u) took k = tt
bind-Took n f (panics u) took k = took
bind-Took n f (stuck u) took k = tt

Takes->>= :
    {A B : Type 0} {m : M A} {f : A → M B} → Takes m → ((a : A) → Shrinks (f a)) → Takes (m >>= f)
unfolding ◌>>=◌
Takes->>= {m = m} {f = f} h k = record {
  some_byte = λ s. bind-Took (left s) f (m s) (h.some_byte s) k;
}

Takes-read_full : (n : ℕ) (put : Bytes → Message → Message) → Takes (read_full (suc n) put)
unfolding read_full
Takes-read_full n put = record {
  some_byte = λ s. elim (Bool-cases (leb (suc n) (length s.reader.stream))) [
    | inl enough ↦
        let size : suc n ≤ length s.reader.stream = ground (arith, enough) in
        rw enough (omega (arith, size, length-drop (suc n) s.reader.stream))
    | inr short ↦ rw short tt
  ];
}

Takes-decode_start : (max : ℕ) → Takes (decode_start max)
unfolding decode_start
Takes-decode_start max = Takes->>= (Takes-read_full 0 _) λ _. Shrinks->>= (Shrinks-gets _) λ _.
    Shrinks->>= (Shrinks-guard _ _) λ _. Shrinks->>= (Shrinks-read_full _ _) λ _.
      Shrinks->>= (Shrinks-read_full _ _) λ _.
        Shrinks->>= (Shrinks-uint32 _) λ _. Shrinks->>= (Shrinks-guard _ _) λ _. Shrinks-value _

Takes-decode_body : (c : Compressors) (max : ℕ) → Takes (decode_body c max)
unfolding decode_body
Takes-decode_body c max =
    Takes->>= (Takes-decode_start max)
      λ l. Shrinks->>= (Shrinks-decode_fill l) λ _. Shrinks-decode_fields c

returns_state : (s t : State) → returns none s ≡ returns none t → s ≡ t
returns_state s t e = cc

recovered-Took :
    (n : ℕ) (r : Run (Unit {0})) (t : State) → Took n r → recovered r ≡ returns none t → left t < n
recovered-Took n (value _ s) t took e = subst (λ x. left x < n) (returns_state s t e) took
recovered-Took n (fails _ s) t took e = cc
recovered-Took n (panics s) t took e = subst (λ x. left x < n) (returns_state s t e) took
recovered-Took n (stuck s) t took e = cc

-- A message that `Decode` gives without an error has taken at least one byte.
pub decode_takes :
    (c : Compressors) (max : ℕ) (m : Message) (r : Reader) (t : State)
    → decode c max m r ≡ returns none t
    → length t.reader.stream < length r.stream
unfolding decode
decode_takes c max m r t e =
    recovered-Took (length r.stream) (decode_body c max (record { msg = m; reader = r })) t
      ((Takes-decode_body c max).some_byte _) e
