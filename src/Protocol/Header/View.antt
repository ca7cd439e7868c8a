-- ===== src/Protocol/Header/View.antt =====
-- The header as independent fields: what each setter of protocol/message.go does to all of them.
use rpcx.Base.{
  ℕ, ◌^◌, ◌<◌, ◌≡◌, refl, ap, arith, ltb, ltb→lt, Bool, true, false, ◌&&◌, ◌==◌, ==_iff,
  if◌then◌else◌,
}
use rpcx.Base.Bits.{all_pairs, all_pairs_sound}
use rpcx.Protocol.Wire.{read_be64-be64}
use rpcx.Protocol.Header.{
  Header, IsHeader, new_header, message_type, set_message_type, is_heartbeat, set_heartbeat,
  is_oneway, set_oneway, compress_type, set_compress_type, message_status_type,
  set_message_status_type, serialize_type, set_serialize_type, seq, set_seq,
}

-- What byte 2 says.
pub record Flags : Type 0 where
  pub type_bit : ℕ
  pub heartbeat : Bool
  pub oneway : Bool
  pub compress : ℕ
  pub status : ℕ

pub record View : Type 0 where
  pub flags : Flags
  pub serialize : ℕ
  pub version : ℕ
  pub number : ℕ

unfoldable pub flags_view : Header → Flags
unfolding message_type is_heartbeat is_oneway compress_type message_status_type
flags_view h = record {
  type_bit = message_type h;
  heartbeat = is_heartbeat h;
  oneway = is_oneway h;
  compress = compress_type h;
  status = message_status_type h;
}

unfoldable pub view : Header → View
unfolding flags_view serialize_type seq
view h = record {
  flags = flags_view h;
  serialize = serialize_type h;
  version = h.version;
  number = seq h;
}

abbrev same : Bool → Bool → Bool
same true b = b
same false true = false
same false false = true

flags_eq : Flags → Flags → Bool
flags_eq a b =
    a.type_bit == b.type_bit
    && same a.heartbeat b.heartbeat
    && same a.oneway b.oneway
    && a.compress == b.compress
    && a.status == b.status

flags_eq→eq : (a b : Flags) → flags_eq a b ≡ true → a ≡ b
unfolding flags_eq
flags_eq→eq a b h = ground arith

-- A header with the given byte 2.
with_flags : ℕ → Header
unfolding new_header
with_flags f = record new_header { flags = f }

-- An update of byte 2 whose effect has been checked at each byte and value has it on each header.
module _ (bound : ℕ) (set : ℕ → Header → Header) (effect : ℕ → Flags → Flags) where
  agrees : ℕ → ℕ → Bool
  unfolding with_flags flags_eq
  agrees f v = flags_eq (flags_view (set v (with_flags f))) (effect v (flags_view (with_flags f)))

  table : Bool
  unfolding agrees all_pairs
  table = all_pairs 256 bound agrees

  table_sound :
      (f v : ℕ)
      → table ≡ true
      → f < 256
      → v < bound
      → flags_view (set v (with_flags f)) ≡ effect v (flags_view (with_flags f))
  unfolding table
  table_sound f v t hf hv = flags_eq→eq _ _ (all_pairs_sound 256 bound agrees f v t hf hv)

abbrev with_view_flags : Header → Flags → View
with_view_flags h f = record (view h) { flags = f }

-- The message type is set to `Response`; `Request` leaves it as it was. Nothing else changes.
pub set_message_type-view :
    (mt : ℕ) (h : Header)
    → IsHeader h
    → mt < 2
    → view (set_message_type mt h) ≡ record (view h) {
      flags = record (flags_view h) { type_bit = if mt == 0 then message_type h else 1 };
    }
unfolding view set_message_type with_flags
set_message_type-view mt h i hm = ap (with_view_flags h) (
    table_sound 2 set_message_type (λ v f. record f { type_bit = if v == 0 then f.type_bit else 1 })
      h.flags mt (unfold table in refl) i.flags_byte hm)

set_heartbeat-view :
    (b : Bool) (h : Header)
    → IsHeader h
    → view (set_heartbeat b h) ≡ record (view h) { flags = record (flags_view h) { heartbeat = b } }
unfolding view set_heartbeat with_flags
set_heartbeat-view true h i = ap (with_view_flags h) (
    table_sound 1 (λ _. set_heartbeat true) (λ _ f. record f { heartbeat = true }) h.flags 0
      (unfold table in refl) i.flags_byte (omega arith))
set_heartbeat-view false h i = ap (with_view_flags h) (
    table_sound 1 (λ _. set_heartbeat false) (λ _ f. record f { heartbeat = false }) h.flags 0
      (unfold table in refl) i.flags_byte (omega arith))

set_oneway-view :
    (b : Bool) (h : Header)
    → IsHeader h
    → view (set_oneway b h) ≡ record (view h) { flags = record (flags_view h) { oneway = b } }
unfolding view set_oneway with_flags
set_oneway-view true h i = ap (with_view_flags h) (
    table_sound 1 (λ _. set_oneway true) (λ _ f. record f { oneway = true }) h.flags 0
      (unfold table in refl) i.flags_byte (omega arith))
set_oneway-view false h i = ap (with_view_flags h) (
    table_sound 1 (λ _. set_oneway false) (λ _ f. record f { oneway = false }) h.flags 0
      (unfold table in refl) i.flags_byte (omega arith))

pub set_compress_type-view :
    (ct : ℕ) (h : Header)
    → IsHeader h
    → ct < 8
    → view (set_compress_type ct h)
      ≡ record (view h) { flags = record (flags_view h) { compress = ct } }
unfolding view set_compress_type with_flags
set_compress_type-view ct h i hc = ap (with_view_flags h) (
    table_sound 8 set_compress_type (λ v f. record f { compress = v }) h.flags ct
      (unfold table in refl) i.flags_byte hc)

pub set_message_status_type-view :
    (st : ℕ) (h : Header)
    → IsHeader h
    → st < 4
    → view (set_message_status_type st h)
      ≡ record (view h) { flags = record (flags_view h) { status = st } }
unfolding view set_message_status_type with_flags
set_message_status_type-view st h i hs = ap (with_view_flags h) (
    table_sound 4 set_message_status_type (λ v f. record f { status = v }) h.flags st
      (unfold table in refl) i.flags_byte hs)

with_kind : ℕ → Header
unfolding new_header
with_kind k = record new_header { kind = k }

serialize_agrees : ℕ → ℕ → Bool
unfolding with_kind serialize_type set_serialize_type
serialize_agrees k st = serialize_type (set_serialize_type st (with_kind k)) == st

serialize_table : all_pairs 256 16 serialize_agrees ≡ true
unfolding all_pairs serialize_agrees
serialize_table = refl

pub set_serialize_type-view :
    (st : ℕ) (h : Header)
    → IsHeader h
    → st < 16
    → view (set_serialize_type st h) ≡ record (view h) { serialize = st }
unfolding view set_serialize_type serialize_type with_kind serialize_agrees
set_serialize_type-view st h i hs =
    ap (λ (k : ℕ). record (view h) { serialize = k })
      ((==_iff _ st).0
        (all_pairs_sound 256 16 serialize_agrees h.kind st serialize_table i.kind_byte hs))

set_seq-view :
    (n : ℕ) (h : Header) → n < 2 ^ 64 → view (set_seq n h) ≡ record (view h) { number = n }
unfolding view set_seq seq
set_seq-view n h hn = ap (λ (k : ℕ). record (view h) { number = k }) (read_be64-be64 n hn)

-- Each of the other setters sets its field, to any value that fits, and changes nothing else of
-- what the accessors read.
pub setters_view :
    (h : Header) (b : Bool) (ct st codec n : ℕ)
    → IsHeader h
    → ct < 8
    → st < 4
    → codec < 16
    → n < 2 ^ 64
    → let v = view h in
      (view (set_heartbeat b h) ≡ record v { flags = record (flags_view h) { heartbeat = b } })
      × (view (set_oneway b h) ≡ record v { flags = record (flags_view h) { oneway = b } })
      × (view (set_compress_type ct h)
          ≡ record v { flags = record (flags_view h) { compress = ct } })
      × (view (set_message_status_type st h)
          ≡ record v { flags = record (flags_view h) { status = st } })
      × (view (set_serialize_type codec h) ≡ record v { serialize = codec })
      × (view (set_seq n h) ≡ record v { number = n })
setters_view h b ct st codec n i hc hs hk hn = (
  set_heartbeat-view b h i,
  set_oneway-view b h i,
  set_compress_type-view ct h i hc,
  set_message_status_type-view st h i hs,
  set_serialize_type-view codec h i hk,
  set_seq-view n h hn,
)

-- The setters of byte 2 leave it a byte.
module _ (bound : ℕ) (set : ℕ → Header → Header) where
  byte_table : Bool
  unfolding with_flags all_pairs
  byte_table = all_pairs 256 bound (λ f v. ltb (set v (with_flags f)).flags 256)

  byte_sound :
      (f v : ℕ) → byte_table ≡ true → f < 256 → v < bound → (set v (with_flags f)).flags < 256
  unfolding byte_table
  byte_sound f v t hf hv =
      ltb→lt _ 256
        (all_pairs_sound 256 bound (λ g w. ltb (set w (with_flags g)).flags 256) f v t hf hv)

pub set_message_type-IsHeader :
    (mt : ℕ) (h : Header) → IsHeader h → mt < 2 → IsHeader (set_message_type mt h)
unfolding set_message_type with_flags
set_message_type-IsHeader mt h i small = record {
  magic_byte = i.magic_byte;
  version_byte = i.version_byte;
  flags_byte =
      byte_sound 2 set_message_type h.flags mt (unfold byte_table in refl) i.flags_byte small;
  kind_byte = i.kind_byte;
  seq_length = i.seq_length;
}

pub set_compress_type-IsHeader :
    (ct : ℕ) (h : Header) → IsHeader h → ct < 8 → IsHeader (set_compress_type ct h)
unfolding set_compress_type with_flags
set_compress_type-IsHeader ct h i small = record {
  magic_byte = i.magic_byte;
  version_byte = i.version_byte;
  flags_byte =
      byte_sound 8 set_compress_type h.flags ct (unfold byte_table in refl) i.flags_byte small;
  kind_byte = i.kind_byte;
  seq_length = i.seq_length;
}

pub set_message_status_type-IsHeader :
    (st : ℕ) (h : Header) → IsHeader h → st < 4 → IsHeader (set_message_status_type st h)
unfolding set_message_status_type with_flags
set_message_status_type-IsHeader st h i small = record {
  magic_byte = i.magic_byte;
  version_byte = i.version_byte;
  flags_byte =
      byte_sound 4 set_message_status_type h.flags st (unfold byte_table in refl) i.flags_byte
        small;
  kind_byte = i.kind_byte;
  seq_length = i.seq_length;
}

compress_bound : ℕ → ℕ → Bool
unfolding with_flags compress_type
compress_bound f v = ltb (compress_type (with_flags f)) 8

compress_bounds : all_pairs 256 1 compress_bound ≡ true
unfolding all_pairs compress_bound
compress_bounds = refl

pub compress_type-lt : (h : Header) → IsHeader h → compress_type h < 8
unfolding compress_type compress_bound with_flags
compress_type-lt h i =
    ltb→lt _ 8
      (all_pairs_sound 256 1 compress_bound h.flags 0 compress_bounds i.flags_byte (omega arith))
