-- ===== src/Server/Fixtures.antt =====
-- One concrete deployment, a request and a client, for the runs of the theorems on the server.
use rpcx.Base.{
  ℕ, ◌+◌, ◌≡◌, refl, arith, [], ◌∷◌, Option, none, some, Bytes, bytes, length, length-replicate,
  replicate,
}
use rpcx.Base.Dict.{nat_eq, bytes_eq_inst}
use rpcx.Protocol.Header.{Header, IsHeader}
use rpcx.Protocol.Message.{Message, new_message, Compressors}
use rpcx.Protocol.Message.Decode.{Reader, eof}
use rpcx.Protocol.Message.Fields.{IsLossless}
use rpcx.Client.Conn.{Client, new_client}
use rpcx.Client.Conn.Response.{Setup, Decoded, decoded, refused}
use rpcx.Server.Handler.{Server, ServerError, Result, ok, err, Codec, Called, Method, Hooks}
use rpcx.Server.Process.{World, Deployment}

abbrev pub no_hooks : Hooks ℕ ℕ
no_hooks = record {
  pre_read_request = λ u. (u, none);
  post_read_request = λ m e u. (u, m, none);
  pre_handle_request = λ m u. (u, m);
  heartbeat_request = λ m u. (u, m);
  pre_call = λ sp sm v u. (u, v, none);
  post_call = λ sp sm v r e u. (u, some r, none);
  pre_write_response = λ q m e u. (u, q, m);
  pre_write_nothing = λ q e u. (u, q);
  post_write_response = λ q m e u. u;
}

-- The service counts its calls and answers with the successor of its argument.
abbrev pub next : Method ℕ ℕ
next = record { arg_type = 0; reply_type = 1; run = λ v r u. Called.returns (u + 1) (v + 1) none }

abbrev pub first_byte : Bytes → Result ℕ
first_byte [] = err (ServerError.failed 1)
first_byte (b ∷ _) = ok b

abbrev pub one_byte : Option ℕ → Result Bytes
one_byte none = err (ServerError.failed 2)
one_byte (some v) = ok (v ∷ [])

abbrev pub byte_codec : Codec ℕ
byte_codec = record { decode = λ _ b. first_byte b; encode = one_byte }

abbrev pub server : Server ℕ ℕ
server = record {
  service_map = (bytes "Arith", record { method = (bytes "Next", next) ∷ []; function = [] }) ∷ [];
  codecs = λ _. some byte_codec;
  new_value = λ _. 0;
  error_text = λ _ _. bytes "failed";
  hooks = no_hooks;
}

abbrev pub zeros : ℕ → Bytes
zeros n = replicate n 0

pub length-zeros : (n : ℕ) → length (zeros n) ≡ n
length-zeros n = length-replicate n (let z : ℕ = 0 in z)

abbrev pub no_compressors : Compressors
no_compressors _ = none

pub no_compressors-IsLossless : IsLossless no_compressors
no_compressors-IsLossless ct c x z known e = cc

-- The context's map has one entry.
abbrev pub deployment : Deployment ℕ ℕ
deployment = record {
  server = server;
  router = [];
  get = zeros;
  compressors = no_compressors;
  res_metadata = λ _. (bytes "k", bytes "v") ∷ [];
}

abbrev pub request_header : Header
request_header = record {
  magic = 8;
  version = 0;
  flags = 0;
  kind = 16;
  seq_bytes = 0 ∷ 0 ∷ 0 ∷ 0 ∷ 0 ∷ 0 ∷ 0 ∷ 5 ∷ [];
}

pub request_header-IsHeader : IsHeader request_header
request_header-IsHeader = record {
  magic_byte = omega arith;
  version_byte = omega arith;
  flags_byte = omega arith;
  kind_byte = omega arith;
  seq_length = refl;
}

unfoldable pub call_of : Bytes → Message
unfolding new_message
call_of path = record new_message {
  header = request_header;
  service_path = path;
  service_method = bytes "Next";
  payload = 41 ∷ [];
}

abbrev pub world : World ℕ
world = record { user = 0; written = []; reported = [] }

unfoldable pub waiting : Client
unfolding new_client
waiting = record new_client { pending = (5, 9) ∷ [] }

abbrev pub client_codec : Bytes → Decoded
client_codec [] = refused 1
client_codec (b ∷ _) = decoded b

abbrev pub setup : Setup
setup = record {
  codecs = λ _. some client_codec;
  codec_error_text = λ _. bytes "codec";
  error_func = none;
}

abbrev pub reader : Reader
reader = record { stream = []; final = eof }
