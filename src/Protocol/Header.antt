-- ===== src/Protocol/Header.antt =====
-- The fixed part of a message: `Header`, an array of twelve bytes, and its accessors.
pub mod View
use rpcx.Base.{
  ℕ, ◌+◌, ◌*◌, ◌/◌, ◌%◌, ◌^◌, ◌<◌, ◌≡◌, refl, arith, List, [], ◌∷◌, ◌++◌, Bytes, Bool, true, false,
  ◌==◌, if◌then◌else◌, length, All,
}
use rpcx.Protocol.Wire.{be64, read_be64}
use Prim.Native.Nat.{bit_and, bit_or, bit_xor}

-- Bytes 0 to 3, and bytes 4 to 11 as a list.
pub record Header : Type 0 where
  pub magic : ℕ
  pub version : ℕ
  pub flags : ℕ
  pub kind : ℕ
  pub seq_bytes : Bytes

pub record IsHeader (h : Header) : Type 0 where
  pub magic_byte : h.magic < 256
  pub version_byte : h.version < 256
  pub flags_byte : h.flags < 256
  pub kind_byte : h.kind < 256
  pub seq_length : length h.seq_bytes ≡ 8

abbrev pub magic_number : ℕ
magic_number = 0x08

-- The twelve bytes, `h[:]`.
unfoldable pub header_bytes : Header → Bytes
header_bytes h = h.magic ∷ h.version ∷ h.flags ∷ h.kind ∷ h.seq_bytes

-- The header that `NewMessage` allocates.
unfoldable pub new_header : Header
new_header = record {
  magic = magic_number;
  version = 0;
  flags = 0;
  kind = 0;
  seq_bytes = 0 ∷ 0 ∷ 0 ∷ 0 ∷ 0 ∷ 0 ∷ 0 ∷ 0 ∷ [];
}

-- `resetHeader` clears all but the magic number.
unfoldable pub reset_header : Header → Header
unfolding new_header
reset_header h = record new_header { magic = h.magic }

-- Go's `a &^ m` on bytes.
abbrev pub and_not : ℕ → ℕ → ℕ
and_not a m = bit_and a (bit_xor m 0xff)

-- `byte(v) << k`
abbrev pub shl8 : ℕ → ℕ → ℕ
shl8 v k = v % 256 * 2 ^ k % 256

unfoldable pub check_magic_number : Header → Bool
check_magic_number h = h.magic == magic_number

unfoldable pub set_version : ℕ → Header → Header
set_version v h = record h { version = v }

unfoldable pub message_type : Header → ℕ
message_type h = bit_and h.flags 0x80 / 2 ^ 7

unfoldable pub set_message_type : ℕ → Header → Header
set_message_type mt h = record h { flags = bit_or h.flags (shl8 mt 7) }

unfoldable pub is_heartbeat : Header → Bool
is_heartbeat h = bit_and h.flags 0x40 == 0x40

unfoldable pub set_heartbeat : Bool → Header → Header
set_heartbeat hb h = record h { flags = if hb then bit_or h.flags 0x40 else and_not h.flags 0x40 }

unfoldable pub is_oneway : Header → Bool
is_oneway h = bit_and h.flags 0x20 == 0x20

unfoldable pub set_oneway : Bool → Header → Header
set_oneway oneway h = record h {
  flags = if oneway then bit_or h.flags 0x20 else and_not h.flags 0x20;
}

unfoldable pub compress_type : Header → ℕ
compress_type h = bit_and h.flags 0x1C / 2 ^ 2

unfoldable pub set_compress_type : ℕ → Header → Header
set_compress_type ct h = record h {
  flags = bit_or (and_not h.flags 0x1C) (bit_and (shl8 ct 2) 0x1C);
}

unfoldable pub message_status_type : Header → ℕ
message_status_type h = bit_and h.flags 0x03

unfoldable pub set_message_status_type : ℕ → Header → Header
set_message_status_type mt h = record h {
  flags = bit_or (and_not h.flags 0x03) (bit_and (mt % 256) 0x03);
}

unfoldable pub serialize_type : Header → ℕ
serialize_type h = bit_and h.kind 0xF0 / 2 ^ 4

unfoldable pub set_serialize_type : ℕ → Header → Header
set_serialize_type st h = record h { kind = bit_or (and_not h.kind 0xF0) (shl8 st 4) }

unfoldable pub seq : Header → ℕ
seq h = read_be64 h.seq_bytes

unfoldable pub set_seq : ℕ → Header → Header
set_seq n h = record h { seq_bytes = be64 n }
