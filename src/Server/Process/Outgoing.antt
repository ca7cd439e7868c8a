-- ===== src/Server/Process/Outgoing.antt =====
-- The header of a response on its way out: compression changes nothing else in it.
use rpcx.Base.{on_bool, ◌≡◌, refl, ltb, ◌&&◌, not, ◌==◌, length}
use rpcx.Base.Dict.{nat_eq, bytes_eq_inst}
use rpcx.Protocol.Header.{IsHeader, compress_type}
use rpcx.Protocol.Header.View.{compress_type-lt}
use rpcx.Protocol.Message.{Message}
use rpcx.Protocol.Message.SameCall.{SameCall, SameCall-refl, set_compress_type-SameCall}
use rpcx.Server.Process.{Deployment, compress_as}

module _ {U V : Type 0} (d : Deployment U V) where
  pub compress_as-SameCall :
      (req res : Message)
      → IsHeader req.header
      → IsHeader res.header
      → SameCall res.header (compress_as d req res).header
  unfolding compress_as
  compress_as-SameCall req res i j =
      on_bool (λ (m : Message). SameCall res.header m.header)
        (ltb 1024 (length res.payload) && not (compress_type req.header == 0))
        (set_compress_type-SameCall (compress_type req.header) res.header j
          (compress_type-lt req.header i))
        (SameCall-refl res.header j)

  pub compress_as_keeps :
      (req res : Message)
      → let out = compress_as d req res in
        (out.payload ≡ res.payload) × (out.metadata ≡ res.metadata)
  unfolding compress_as
  compress_as_keeps req res =
      on_bool (λ (m : Message). (m.payload ≡ res.payload) × (m.metadata ≡ res.metadata))
        (ltb 1024 (length res.payload) && not (compress_type req.header == 0)) (refl, refl)
        (refl, refl)
