-- ===== src/Server/Process/Filled.antt =====
-- The response's metadata after the context's map has filled its gaps.
use rpcx.Base.{
  on_option, on_bool, ◌≡◌, refl, ◌∙◌, arith, [], ◌∷◌, none, some, Bytes, false, Bool-cases, inl,
  inr, bytes_eq, bytes_eq→eq, if◌then◌else◌,
}
use rpcx.Base.Dict.{lookup, insert, lookup-insert, Distinct, bytes_eq_inst, bytes_eq_iff}
use rpcx.Protocol.Metadata.{Meta}
use rpcx.Protocol.Message.{Message, entries}
use rpcx.Client.Conn.Response.{is_empty, get_string}
use rpcx.Client.Conn.Outcome.{is_empty-lookup}
use rpcx.Server.Process.{fill_missing, with_res_metadata}

pub insert-Distinct : (k v : Bytes) (m : Meta) → Distinct m → Distinct (insert k v m)
unfolding lookup insert
insert-Distinct k v [] d = (refl, tt)
insert-Distinct k v ((j, w) ∷ m) (new, d) =
    ground
      (arith, insert-Distinct k v m d, lookup-insert k j v m, bytes_eq_iff j k, bytes_eq_iff k j)

pub fill_missing-Distinct : (m kvs : Meta) → Distinct m → Distinct (fill_missing m kvs)
unfolding fill_missing
fill_missing-Distinct m [] d = d
fill_missing-Distinct m ((k, v) ∷ kvs) d =
    let m1 : Meta = if is_empty (get_string k m) then insert k v m else m in
    fill_missing-Distinct m1 kvs
      (on_bool (λ (x : Meta). Distinct x) (is_empty (get_string k m)) (insert-Distinct k v m d) d)

fill_one-lookup :
    (j k v t : Bytes) (m : Meta)
    → lookup k m ≡ some t
    → is_empty t ≡ false
    → lookup k (if is_empty (get_string j m) then insert j v m else m) ≡ some t
fill_one-lookup j k v t m h ne = elim (Bool-cases (bytes_eq j k)) [
  | inl e ↦
      let j_is_k : j ≡ k = bytes_eq→eq j k e in
      let said : get_string j m ≡ t = rw j_is_k (is_empty-lookup k t m h).0 in rw (said, ne) h
  | inr e ↦
      on_bool (λ (x : Meta). lookup k x ≡ some t) (is_empty (get_string j m))
        (lookup-insert j k v m ∙ rw e h) h
]

-- An entry that is not empty stays.
pub fill_missing-lookup :
    (k t : Bytes) (m kvs : Meta)
    → lookup k m ≡ some t
    → is_empty t ≡ false
    → lookup k (fill_missing m kvs) ≡ some t
unfolding fill_missing
fill_missing-lookup k t m [] h ne = h
fill_missing-lookup k t m ((j, v) ∷ kvs) h ne =
    let m1 : Meta = if is_empty (get_string j m) then insert j v m else m in
    fill_missing-lookup k t m1 kvs (fill_one-lookup j k v t m h ne) ne

-- A response without metadata gets the context's map.
pub with_res_metadata-none :
    (meta : Meta) (res : Message)
    → res.metadata ≡ none
    → entries (with_res_metadata meta res).metadata ≡ meta
unfolding with_res_metadata
with_res_metadata-none [] res e = rw e refl
with_res_metadata-none (kv ∷ kvs) res e = rw e refl

pub with_res_metadata-some :
    (meta m : Meta) (res : Message)
    → res.metadata ≡ some m
    → entries (with_res_metadata meta res).metadata ≡ fill_missing m meta
unfolding with_res_metadata fill_missing
with_res_metadata-some [] m res e = rw e refl
with_res_metadata-some (kv ∷ kvs) m res e = rw e refl

pub with_res_metadata_keeps :
    (meta : Meta) (res : Message)
    → let out = with_res_metadata meta res in
      (out.header ≡ res.header) × (out.payload ≡ res.payload)
unfolding with_res_metadata
with_res_metadata_keeps [] res = (refl, refl)
with_res_metadata_keeps (kv ∷ kvs) res =
    on_option (λ (m : Message). (m.header ≡ res.header) × (m.payload ≡ res.payload)) res.metadata
      (refl, refl) (λ _. (refl, refl))
