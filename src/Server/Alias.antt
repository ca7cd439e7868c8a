-- ===== src/Server/Alias.antt =====
-- `AliasPlugin` (serverplugin/alias.go): requests by an alias get the name that the service has,
-- and the answers get the alias again. The maps of a plugin that `NewAliasPlugin` made are not nil.
use rpcx.Base.{
  ◌≡◌, refl, arith, List, [], ◌∷◌, ◌++◌, Option, none, some, Bytes, bytes, bytes_eq, Bool, false,
  if◌then◌else◌, ap, sym, ◌∙◌,
}
use rpcx.Base.Dict.{lookup, insert, delete, lookup_inserted, bytes_eq_inst}
use rpcx.Protocol.Metadata.{Meta}
use rpcx.Protocol.Message.{Message, entries}

abbrev pub alias_applied_key : Bytes
alias_applied_key = bytes "__aliasAppliedKey"

-- A pair of a path and a method.
abbrev pub AliasPair : Type 0
AliasPair = Bytes × Bytes

pub record AliasPlugin : Type 0 where
  pub aliases : List (Bytes × AliasPair)
  pub reverse_aliases : List (Bytes × AliasPair)

unfoldable pub new_alias_plugin : AliasPlugin
new_alias_plugin = record { aliases = []; reverse_aliases = [] }

-- `path + "." + method`
abbrev pub dotted : Bytes → Bytes → Bytes
dotted sp sm = sp ++ (bytes "." ++ sm)

unfoldable pub alias : Bytes → Bytes → Bytes → Bytes → AliasPlugin → AliasPlugin
alias alias_path alias_method sp sm p = record {
  aliases = insert (dotted alias_path alias_method) (sp, sm) p.aliases;
  reverse_aliases = insert (dotted sp sm) (alias_path, alias_method) p.reverse_aliases;
}

unfoldable pub post_read_request : AliasPlugin → Message → Message
post_read_request p r = elim (lookup (dotted r.service_path r.service_method) p.aliases) [
  | none ↦ r
  | some (sp, sm) ↦ record r {
    service_path = sp;
    service_method = sm;
    metadata = some (insert alias_applied_key (bytes "true") (entries r.metadata));
  }
]

-- The request and the response, none when it is nil.
unfoldable pub pre_write_response :
    AliasPlugin → Message → Option Message → Message × Option Message
pre_write_response p r res =
    let applied : Bool = elim (lookup alias_applied_key (entries r.metadata)) [
      | none ↦ false
      | some v ↦ bytes_eq v (bytes "true")
    ] in
    if applied
    then elim (lookup (dotted r.service_path r.service_method) p.reverse_aliases) [
      | none ↦ (r, res)
      | some (sp, sm) ↦ (
        record r {
          service_path = sp;
          service_method = sm;
          metadata = some (delete alias_applied_key (entries r.metadata));
        },
        elim res [
          | none ↦ none
          | some m ↦ some (record m { service_path = sp; service_method = sm })
        ],
      )
    ]
    else (r, res)

delete-insert_new : (k v : Bytes) (m : Meta) → lookup k m ≡ none → delete k (insert k v m) ≡ m
unfolding lookup insert delete
delete-insert_new k v [] new = ground (arith, bytes_eq_inst.beq_iff k k)
delete-insert_new k v ((i, w) ∷ m) new =
    ground (arith, bytes_eq_inst.beq_iff k k, delete-insert_new k v m)

-- A request by an alias that was given last is handled under the service's own name; when the
-- response is written, the request and the response have the alias again, and the metadata is as
-- it was. This needs that the metadata, where there is any, does not have the plugin's own key.
pub alias_restored :
    (p : AliasPlugin) (r res : Message) (sp sm : Bytes) (meta : Meta)
    → r.metadata ≡ some meta
    → lookup alias_applied_key meta ≡ none
    → let q = alias r.service_path r.service_method sp sm p in
      let served = post_read_request q r in
      (served.service_path ≡ sp)
      × (served.service_method ≡ sm)
      × (pre_write_response q served (some res) ≡ (
        r,
        some (record res { service_path = r.service_path; service_method = r.service_method }),
      ))
unfolding alias post_read_request pre_write_response bytes_eq
alias_restored p r res sp sm meta given new =
    let q = alias r.service_path r.service_method sp sm p in
    let marked : Message = record r {
      service_path = sp;
      service_method = sm;
      metadata = some (insert alias_applied_key (bytes "true") meta);
    } in
    let there : lookup (dotted r.service_path r.service_method) q.aliases ≡ some (sp, sm) =
      lookup_inserted _ (sp, sm) p.aliases in
    let back : lookup (dotted sp sm) q.reverse_aliases ≡ some (r.service_path, r.service_method) =
      lookup_inserted _ (r.service_path, r.service_method) p.reverse_aliases in
    let served : post_read_request q r ≡ marked = rw (there, given, post_read_request) refl in
    let key = lookup_inserted alias_applied_key (bytes "true") meta in
    let cleared = delete-insert_new alias_applied_key (bytes "true") meta new in
    let whole : record r { metadata = some meta } ≡ r =
      ap (λ (m : Option Meta). let c : Message = record r { metadata = m } in c) (sym given) in
    let restored : pre_write_response q marked (some res) ≡ (
      record r { metadata = some meta },
      some (record res { service_path = r.service_path; service_method = r.service_method }),
    ) =
      rw (key, back, pre_write_response) (rw cleared refl) in
    (
      ap (λ m. m.service_path) served,
      ap (λ m. m.service_method) served,
      ap (λ m. pre_write_response q m (some res)) served
          ∙ restored
          ∙ ap
              (λ (m : Message).
                let c : Message × Option Message = (
                  m,
                  some (record res {
                    service_path = r.service_path;
                    service_method = r.service_method;
                  }),
                ) in
                c)
              whole,
    )
