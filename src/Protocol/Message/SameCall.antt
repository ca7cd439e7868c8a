-- ===== src/Protocol/Message/SameCall.antt =====
-- Headers that differ in their compression only: what `EncodeSlicePointer` leaves of a header.
use rpcx.Base.{on_option, on_bool, ℕ, ◌<◌, ◌≡◌, refl, ap, ◌∙◌, arith, Bytes, ◌==◌}
use rpcx.Base.Dict.{nat_eq}
use rpcx.Protocol.Header.{
  Header, IsHeader, message_type, message_status_type, serialize_type, is_oneway, is_heartbeat,
  compress_type, set_compress_type,
}
use rpcx.Protocol.Header.View.{view, flags_view, set_compress_type-view, set_compress_type-IsHeader}
use rpcx.Protocol.Message.{Compressors, Coded, coded, failed}
use rpcx.Protocol.Message.Encode.{compress_payload}

-- Two headers that differ in the compression only.
pub record SameCall (h k : Header) : Type 0 where
  pub in_range : IsHeader k
  pub same_magic : k.magic ≡ h.magic
  pub same_number : k.seq_bytes ≡ h.seq_bytes
  pub same_type : message_type k ≡ message_type h
  pub same_status : message_status_type k ≡ message_status_type h
  pub same_codec : serialize_type k ≡ serialize_type h
  pub same_oneway : is_oneway k ≡ is_oneway h
  pub same_heartbeat : is_heartbeat k ≡ is_heartbeat h

pub SameCall-refl : (h : Header) → IsHeader h → SameCall h h
SameCall-refl h i = record {
  in_range = i;
  same_magic = refl;
  same_number = refl;
  same_type = refl;
  same_status = refl;
  same_codec = refl;
  same_oneway = refl;
  same_heartbeat = refl;
}

pub set_compress_type-SameCall :
    (ct : ℕ) (h : Header) → IsHeader h → ct < 8 → SameCall h (set_compress_type ct h)
unfolding view flags_view
set_compress_type-SameCall ct h i small =
    let v = set_compress_type-view ct h i small in
    record {
      in_range = set_compress_type-IsHeader ct h i small;
      same_magic = unfold set_compress_type in refl;
      same_number = unfold set_compress_type in refl;
      same_type = ap (λ w. w.flags.type_bit) v;
      same_status = ap (λ w. w.flags.status) v;
      same_codec = ap (λ w. w.serialize) v;
      same_oneway = ap (λ w. w.flags.oneway) v;
      same_heartbeat = ap (λ w. w.flags.heartbeat) v;
    }

pub SameCall-trans : (h k l : Header) → SameCall h k → SameCall k l → SameCall h l
SameCall-trans h k l a b = record {
  in_range = b.in_range;
  same_magic = b.same_magic ∙ a.same_magic;
  same_number = b.same_number ∙ a.same_number;
  same_type = b.same_type ∙ a.same_type;
  same_status = b.same_status ∙ a.same_status;
  same_codec = b.same_codec ∙ a.same_codec;
  same_oneway = b.same_oneway ∙ a.same_oneway;
  same_heartbeat = b.same_heartbeat ∙ a.same_heartbeat;
}

on_coded :
    {B : Type 0} (P : B → Type 0) (r : Coded) {f : Bytes → B} {g : ℕ → B}
    → ((z : Bytes) → P (f z))
    → ((e : ℕ) → P (g e))
    → P (elim r [ coded z ↦ f z | failed e ↦ g e ])
on_coded P (coded z) h k = h z
on_coded P (failed e) h k = k e

pub compress_payload-SameCall :
    (compressors : Compressors) (h : Header) (payload : Bytes)
    → IsHeader h
    → SameCall h (compress_payload compressors h payload).0
unfolding compress_payload
compress_payload-SameCall compressors h payload i =
    let P = λ (r : Header × Bytes). SameCall h r.0 in
    let plain = set_compress_type-SameCall 0 h i (omega arith) in
    on_bool P (compress_type h == 0) (SameCall-refl h i) (
      on_option P (compressors (compress_type h)) plain
        λ c. on_coded P (c.zip payload) (λ z. SameCall-refl h i) (λ e. plain))
