-- ===== src/Client/Conn/Send/Says.antt =====
-- The header of a request that `send` writes.
use rpcx.Base.{
  ℕ, ◌^◌, ◌<◌, ◌≡◌, refl, ap, ◌∙◌, arith, Bool, true, false, ltb, ltb→lt, not, if◌then◌else◌,
}
use rpcx.Base.Bits.{all_pairs, all_pairs_sound}
use rpcx.Base.Dict.{nat_eq, bytes_eq_inst}
use rpcx.Protocol.Wire.{length-be64, read_be64, read_be64-be64}
use rpcx.Protocol.Header.{
  Header, IsHeader, magic_number, new_header, seq, message_type, is_heartbeat, is_oneway,
  compress_type, message_status_type, serialize_type, set_seq, set_oneway, set_message_type,
  set_serialize_type,
}
use rpcx.Protocol.Header.View.{View, view, flags_view, set_serialize_type-view}
use rpcx.Protocol.Message.SameCall.{SameCall}
use rpcx.Client.Conn.Send.{request_header}

kind_fits : ℕ → ℕ → Bool
unfolding set_serialize_type new_header
kind_fits k st = ltb (set_serialize_type st new_header).kind 256

kinds_fit : all_pairs 1 16 kind_fits ≡ true
unfolding all_pairs kind_fits
kinds_fit = refl

-- What the accessors read of a request's header.
abbrev request_view : ℕ → Bool → ℕ → View
request_view n has_reply st = record {
  flags = record {
    type_bit = 0;
    heartbeat = false;
    oneway = not has_reply;
    compress = 0;
    status = 0;
  };
  serialize = st;
  version = 0;
  number = n;
}

-- The header before its codec is set.
draft-IsHeader :
    (n : ℕ) (has_reply : Bool)
    → let h = set_seq n (set_message_type 0 new_header) in
      IsHeader (if has_reply then h else set_oneway true h)
unfolding set_seq set_message_type set_oneway new_header
draft-IsHeader n true = record {
  magic_byte = omega arith;
  version_byte = omega arith;
  flags_byte = omega arith;
  kind_byte = omega arith;
  seq_length = length-be64 n;
}
draft-IsHeader n false = record {
  magic_byte = omega arith;
  version_byte = omega arith;
  flags_byte = omega arith;
  kind_byte = omega arith;
  seq_length = length-be64 n;
}

set_serialize_type-IsHeader :
    (st : ℕ) (h : Header) → IsHeader h → h.kind ≡ 0 → st < 16 → IsHeader (set_serialize_type st h)
unfolding set_serialize_type kind_fits new_header
set_serialize_type-IsHeader st h i none_yet small = record {
  magic_byte = i.magic_byte;
  version_byte = i.version_byte;
  flags_byte = i.flags_byte;
  kind_byte =
      rw none_yet
        (ltb→lt _ 256 (all_pairs_sound 1 16 kind_fits 0 st kinds_fit (omega arith) small));
  seq_length = i.seq_length;
}

request_header-IsHeader :
    (n : ℕ) (has_reply : Bool) (st : ℕ) → st < 16 → IsHeader (request_header n has_reply false st)
unfolding request_header set_seq set_message_type set_oneway new_header
request_header-IsHeader n true st small =
    set_serialize_type-IsHeader st _ (draft-IsHeader n true) refl small
request_header-IsHeader n false st small =
    set_serialize_type-IsHeader st _ (draft-IsHeader n false) refl small

request_header-view :
    (n : ℕ) (has_reply : Bool) (st : ℕ)
    → n < 2 ^ 64
    → st < 16
    → view (request_header n has_reply false st) ≡ request_view n has_reply st
unfolding request_header view flags_view seq set_seq set_message_type set_oneway new_header
    message_type is_heartbeat is_oneway compress_type message_status_type
request_header-view n true st fits small =
    set_serialize_type-view st _ (draft-IsHeader n true) small
    ∙ ap (λ k. record (request_view n true st) { number = k }) (read_be64-be64 n fits)
request_header-view n false st fits small =
    set_serialize_type-view st _ (draft-IsHeader n false) small
    ∙ ap (λ k. record (request_view n false st) { number = k }) (read_be64-be64 n fits)

-- What a request says: it is no heartbeat, and one-way where the call has no reply.
pub record SaysRequest (n : ℕ) (has_reply : Bool) (st : ℕ) (h : Header) : Type 0 where
  pub in_range : IsHeader h
  pub has_magic : h.magic ≡ magic_number
  pub is_request : message_type h ≡ 0
  pub no_heartbeat : is_heartbeat h ≡ false
  pub oneway : is_oneway h ≡ not has_reply
  pub normal : message_status_type h ≡ 0
  pub codec : serialize_type h ≡ st
  pub number : seq h ≡ n

request_header-magic :
    (n : ℕ) (has_reply : Bool) (st : ℕ) → (request_header n has_reply false st).magic ≡ magic_number
unfolding request_header set_serialize_type set_oneway set_seq set_message_type new_header
request_header-magic n true st = refl
request_header-magic n false st = refl

pub request_header-SaysRequest :
    (n : ℕ) (has_reply : Bool) (st : ℕ)
    → n < 2 ^ 64
    → st < 16
    → SaysRequest n has_reply st (request_header n has_reply false st)
unfolding view flags_view
request_header-SaysRequest n has_reply st fits small =
    let v = request_header-view n has_reply st fits small in
    record {
      in_range = request_header-IsHeader n has_reply st small;
      has_magic = request_header-magic n has_reply st;
      is_request = ap (λ w. w.flags.type_bit) v;
      no_heartbeat = ap (λ w. w.flags.heartbeat) v;
      oneway = ap (λ w. w.flags.oneway) v;
      normal = ap (λ w. w.flags.status) v;
      codec = ap (λ w. w.serialize) v;
      number = ap (λ w. w.number) v;
    }

pub SaysRequest-SameCall :
    (n : ℕ) (has_reply : Bool) (st : ℕ) (h k : Header)
    → SameCall h k
    → SaysRequest n has_reply st h
    → SaysRequest n has_reply st k
SaysRequest-SameCall n has_reply st h k c a = record {
  in_range = c.in_range;
  has_magic = c.same_magic ∙ a.has_magic;
  is_request = c.same_type ∙ a.is_request;
  no_heartbeat = c.same_heartbeat ∙ a.no_heartbeat;
  oneway = c.same_oneway ∙ a.oneway;
  normal = c.same_status ∙ a.normal;
  codec = c.same_codec ∙ a.codec;
  number = unfold seq in (ap read_be64 c.same_number ∙ a.number);
}
