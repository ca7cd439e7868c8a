-- ===== src/Share/Tests.antt =====
-- A run of the theorem on the metadata of a context.
use rpcx.Base.{ℕ, ◌≡◌, refl, [], ◌∷◌, Option, none, some, bytes, bytes_eq}
use rpcx.Share.{
  State, Value, meta_map, get_req_meta_data_by_key, set_req_meta_data, set_get_metadata,
  get_req_meta_data,
}
use rpcx.Base.Dict.{lookup, insert, nat_eq, bytes_eq_inst}

-- The parent has the map 0, which has no entry.
abbrev inherited : ℕ → Option Value
inherited key = some (meta_map 0)

abbrev before : State
before = record { context = record { tags = none }; maps = (0, []) ∷ []; next = 1 }

abbrev after : State
after = record {
  context = record { tags = none };
  maps = (0, (bytes "k", bytes "v") ∷ []) ∷ [];
  next = 1;
}

set_get_metadata_run : get_req_meta_data_by_key inherited (bytes "k") after ≡ some (bytes "v")
unfolding set_req_meta_data get_req_meta_data_by_key get_req_meta_data lookup insert bytes_eq
set_get_metadata_run =
    set_get_metadata inherited before after (bytes "k") (bytes "v") (bytes "k") [] refl refl
