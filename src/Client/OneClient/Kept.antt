-- ===== src/Client/OneClient/Kept.antt =====
-- The calls of a path share an xclient, and what a nil in the map does.
use rpcx.Base.{ℕ, ◌≡◌, refl, ◌∙◌, ap, List, [], ◌∷◌, Option, none, some, Bytes, bytes_eq, on_bool}
use rpcx.Base.Dict.{lookup, insert, bytes_eq_inst}
use rpcx.Client.Conn.{at}
use rpcx.Client.OneClient.{
  Made, failed, Settings, OneClient, ran, panics, set_each, collect, known, with_settings,
  set_plugins, auth, close, new_xclient, get_or_make,
}

module _ {W E : Type 0} (make : Bytes → W → W × Made E) (path : Bytes) (x : ℕ) where
  -- The path has the xclient `x`.
  abbrev Has : OneClient W → Type 0
  Has c = known (lookup path c.xclients) ≡ some x

collect_nil : (k : Bytes) (m : List (Bytes × Option ℕ)) → collect (insert k none m) ≡ panics
unfolding collect insert
collect_nil k [] = refl
collect_nil k ((j, none) ∷ m) = on_bool (λ l. collect l ≡ panics) (bytes_eq j k) refl refl
collect_nil k ((j, some y) ∷ m) =
    on_bool (λ l. collect l ≡ panics) (bytes_eq j k) refl
      (ap (λ r. elim r [ panics ↦ panics | ran xs ↦ ran (y ∷ xs) ]) (collect_nil k m))

set_each_nil :
    (f : Settings → Settings) (k : Bytes) (m : List (Bytes × Option ℕ)) (st : ℕ → Settings)
    → set_each f (insert k none m) st ≡ panics
unfolding set_each insert
set_each_nil f k [] st = refl
set_each_nil f k ((j, none) ∷ m) st =
    on_bool (λ l. set_each f l st ≡ panics) (bytes_eq j k) refl refl
set_each_nil f k ((j, some y) ∷ m) st =
    on_bool (λ l. set_each f l st ≡ panics) (bytes_eq j k) refl
      (set_each_nil f k m (at st y (f (st y))))

close_nil : {W : Type 0} (d : OneClient W) → collect d.xclients ≡ panics → close d ≡ panics
unfolding close
close_nil d e = rw (e, close) refl

auth_nil :
    {W : Type 0} (token : Bytes) (d : OneClient W)
    → ((f : Settings → Settings) → set_each f d.xclients d.settings ≡ panics)
    → auth token d ≡ panics
unfolding auth with_settings
auth_nil token d e = rw (e (λ st. record st { auth = token })) refl

set_plugins_nil :
    {W : Type 0} (p : ℕ) (d : OneClient W)
    → ((f : Settings → Settings) → set_each f d.xclients d.settings ≡ panics)
    → set_plugins p d ≡ panics
unfolding set_plugins with_settings
set_plugins_nil p d e = rw (e (λ st. record st { plugins = some p })) refl

module _ {W E : Type 0} (make : Bytes → W → W × Made E) (path : Bytes) (c : OneClient W) where
  made_nil :
      {err : E}
      → known (lookup path c.xclients) ≡ none
      → (make path c.world).1 ≡ failed err
      → (get_or_make make path c).0.xclients ≡ insert path none c.xclients
  unfolding get_or_make new_xclient
  made_nil free fails = rw (free, get_or_make) (rw (fails, new_xclient) refl)

  -- Where the xclient of a path cannot be made, a nil stays in the map, and a `Close`, `Auth` or
  -- `SetPlugins` that comes next panics.
  pub nil_panics :
      {err : E}
      → known (lookup path c.xclients) ≡ none
      → (make path c.world).1 ≡ failed err
      → (token : Bytes) (p : ℕ)
      → (close (get_or_make make path c).0 ≡ panics)
        × (auth token (get_or_make make path c).0 ≡ panics)
        × (set_plugins p (get_or_make make path c).0 ≡ panics)
  nil_panics free fails token p =
      let d = (get_or_make make path c).0 in
      let e = made_nil free fails in
      let each = λ (f : Settings → Settings).
        ap (λ m. set_each f m d.settings) e ∙ set_each_nil f path c.xclients d.settings in
      (
        close_nil d (ap collect e ∙ collect_nil path c.xclients),
        auth_nil token d each,
        set_plugins_nil p d each,
      )
