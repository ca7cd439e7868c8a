-- ===== src/Protocol/Message.antt =====
-- Messages: `Message`, `Compressor` and the layout of a frame (protocol/message.go).
pub mod Encode
pub mod Frame
pub mod Write
pub mod Decode
pub mod RoundTrip
pub mod Fields
pub mod Exchange
pub mod SameCall
pub mod Ends
pub mod Consumes
pub mod Faults
pub mod Truncated
use rpcx.Base.{
  ℕ, ◌+◌, ◌≡◌, List, [], ◌∷◌, ◌++◌, Option, none, some, Bytes, Bool, length, ◌==◌, if◌then◌else◌,
}
use rpcx.Protocol.Wire.{be32}
use rpcx.Protocol.Slice.{Slice, nil_slice}
use rpcx.Protocol.Header.{
  Header, new_header, reset_header, header_bytes, set_compress_type, compress_type,
}
use rpcx.Protocol.Metadata.{Meta, encode_metadata}

-- `metadata` is `none` for the nil map.
pub record Message : Type 0 where
  pub header : Header
  pub service_path : Bytes
  pub service_method : Bytes
  pub metadata : Option Meta
  pub payload : Bytes
  pub data_slice : Slice

unfoldable pub new_message : Message
unfolding new_header nil_slice
new_message = record {
  header = new_header;
  service_path = [];
  service_method = [];
  metadata = none;
  payload = [];
  data_slice = nil_slice;
}

-- `Clone` keeps the header but for the compression, and the names.
unfoldable pub clone : Message → Message
clone m = record new_message {
  header = set_compress_type 0 m.header;
  service_path = m.service_path;
  service_method = m.service_method;
}

-- `Reset` keeps the array of `data`.
unfoldable pub reset : Message → Message
reset m = record {
  header = reset_header m.header;
  service_path = [];
  service_method = [];
  metadata = none;
  payload = [];
  data_slice = record { store = m.data_slice.store; len = 0 };
}

-- The result of `Zip` or `Unzip`: bytes, or an error.
pub data Coded : Type 0 where
  coded : Bytes → Coded
  failed : ℕ → Coded

-- The interface `Compressor`.
pub record Compressor : Type 0 where
  pub zip : Bytes → Coded
  pub unzip : Bytes → Coded

-- `RawDataCompressor`
unfoldable pub raw_compressor : Compressor
raw_compressor = record { zip = coded; unzip = coded }

-- The map `Compressors`, which a program may extend.
abbrev pub Compressors : Type 0
Compressors = ℕ → Option Compressor

-- The map as it is declared, over the gzip compressor of the Go library.
unfoldable pub default_compressors : Compressor → Compressors
unfolding raw_compressor
default_compressors gzip ct =
    if ct == 0 then some raw_compressor else if ct == 1 then some gzip else none

-- The entries over which `range m.Metadata` goes.
abbrev pub entries : Option Meta → Meta
entries none = []
entries (some m) = m
