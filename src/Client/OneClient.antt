-- ===== src/Client/OneClient.antt =====
-- `OneClient` of client/oneclient.go: one xclient for each service path, made when it is first used.
-- Each function here is a section under the mutex. The setters `SetPlugins`, `ConfigGeoSelector` and
-- `Auth` write a field before they lock: that write and the loop behind it are one section here, so
-- that no two setters run at once. The calls of an xclient are an argument, and so is what making one
-- does (`Clone` of the discovery, `NewXClient` and its panics, which are errors, and a selector that panics in `SetSelector`).
pub mod Each
pub mod Uniform
pub mod Kept
mod Tests
use rpcx.Base.{
  ℕ, suc, ◌≡◌, List, [], ◌∷◌, ◌++◌, Option, none, some, Bytes, bytes, Bool, true, false,
  if◌then◌else◌,
}
use rpcx.Base.Dict.{lookup, insert, bytes_eq_inst}
use rpcx.Client.Conn.{at}
use rpcx.Client.Conn.Response.{is_empty}

-- Where an xclient's selector comes from: its mode, `SetSelector`, or a latitude and a longitude.
pub data Source : Type 0 where
  by_mode : Source
  custom : ℕ → Source
  geo : ℕ → ℕ → Source

-- What the OneClient sets on an xclient; `none` is the container that `NewXClient` makes.
pub record Settings : Type 0 where
  pub auth : Bytes
  pub plugins : Option ℕ
  pub selector : Source

-- `xclients` may hold a nil, `none`. `closest` has the latitude and the longitude where `selectMode`
-- is `Closest`; `closed` has the xclients that were closed.
pub record OneClient (W : Type 0) : Type 0 where
  pub xclients : List (Bytes × Option ℕ)
  pub settings : ℕ → Settings
  pub next_xclient : ℕ
  pub selectors : List (Bytes × ℕ)
  pub plugins : Option ℕ
  pub closest : Option (ℕ × ℕ)
  pub auth : Bytes
  pub closed : List ℕ
  pub world : W

-- How `newXClient` ends: with an xclient, with a nil and an error, or with an error and the xclient on
-- which `SetSelector` panicked.
pub data Made (E : Type 0) : Type 0 where
  made : Made E
  failed interrupted : E → Made E

-- A method on a nil xclient panics.
pub data Ran (S : Type 0) : Type 0 where
  ran : S → Ran S
  panics : Ran S

abbrev pub send_file_service_name : Bytes
send_file_service_name = bytes "_filetransfer"

abbrev pub stream_service_name : Bytes
stream_service_name = bytes "_streamservice"

-- A loop over the xclients that sets something on each.
unfoldable pub set_each :
    (Settings → Settings) → List (Bytes × Option ℕ) → (ℕ → Settings) → Ran (ℕ → Settings)
set_each f [] st = ran st
set_each f ((k, none) ∷ m) st = panics
set_each f ((k, some x) ∷ m) st = set_each f m (at st x (f (st x)))

unfoldable pub collect : List (Bytes × Option ℕ) → Ran (List ℕ)
collect [] = ran []
collect ((k, none) ∷ m) = panics
collect ((k, some x) ∷ m) = elim (collect m) [ panics ↦ panics | ran xs ↦ ran (x ∷ xs) ]

-- The xclient of a path, where the map has one that is not nil.
unfoldable pub known : Option (Option ℕ) → Option ℕ
known none = none
known (some x) = x

module _ {W : Type 0} where
  -- `NewOneClient`, with `closest` for the mode `Closest`.
  unfoldable pub new_one_client : Option (ℕ × ℕ) → (ℕ → Settings) → W → OneClient W
  new_one_client closest st w = record {
    xclients = [];
    settings = st;
    next_xclient = 0;
    selectors = [];
    plugins = none;
    closest = closest;
    auth = [];
    closed = [];
    world = w;
  }

  -- The state with what a loop over the xclients leaves.
  unfoldable pub with_settings : OneClient W → Ran (ℕ → Settings) → Ran (OneClient W)
  with_settings c panics = panics
  with_settings c (ran st) = ran (record c { settings = st })

  unfoldable pub set_selector : Bytes → ℕ → OneClient W → Ran (OneClient W)
  set_selector path s c =
      let c1 = record c { selectors = insert path s c.selectors } in
      elim (lookup path c.xclients) [
        | none ↦ ran c1
        | some o ↦ elim o [
          | none ↦ panics
          | some x ↦ ran (record c1 {
            settings = at c.settings x (record (c.settings x) { selector = custom s });
          })
        ]
      ]

  unfoldable pub set_plugins : ℕ → OneClient W → Ran (OneClient W)
  set_plugins p c =
      with_settings (record c { plugins = some p })
        (set_each (λ st. record st { plugins = some p }) c.xclients c.settings)

  unfoldable pub config_geo_selector : ℕ → ℕ → OneClient W → Ran (OneClient W)
  config_geo_selector latitude longitude c =
      with_settings (record c { closest = some (latitude, longitude) })
        (set_each (λ st. record st { selector = geo latitude longitude }) c.xclients c.settings)

  unfoldable pub auth : Bytes → OneClient W → Ran (OneClient W)
  auth token c =
      with_settings (record c { auth = token })
        (set_each (λ st. record st { auth = token }) c.xclients c.settings)

  -- `Close`, without the errors of the xclients.
  unfoldable pub close : OneClient W → Ran (OneClient W)
  close c = elim (collect c.xclients) [
    | panics ↦ panics
    | ran xs ↦ ran (record c { closed = c.closed ++ xs })
  ]

  -- What `newXClient` sets on a new xclient of a path.
  unfoldable pub first_settings : Bytes → OneClient W → Settings
  first_settings path c = record {
    auth = c.auth;
    plugins = c.plugins;
    selector = elim c.closest [
      | some (latitude, longitude) ↦ geo latitude longitude
      | none ↦ elim (lookup path c.selectors) [ none ↦ by_mode | some s ↦ custom s ]
    ];
  }

  -- What is set where `SetSelector` panics: the plugins.
  unfoldable pub settings_so_far : OneClient W → Settings
  settings_so_far c = record { auth = []; plugins = c.plugins; selector = by_mode }

  -- A new xclient of a path goes into the map.
  unfoldable pub put_xclient : Bytes → Settings → W → OneClient W → OneClient W
  put_xclient path st w c =
      let x = c.next_xclient in
      record c {
        world = w;
        xclients = insert path (some x) c.xclients;
        settings = at c.settings x st;
        next_xclient = suc x;
      }

module _ {W E : Type 0} (make : Bytes → W → W × Made E) where
  -- `newXClient`, and the entry of the map.
  unfoldable pub new_xclient : Bytes → OneClient W → OneClient W × Option ℕ × Option E
  new_xclient path c =
      let (w, e) = make path c.world in
      let x = c.next_xclient in
      elim e [
        | made ↦ (put_xclient path (first_settings path c) w c, some x, none)
        | failed err ↦
            (record c { world = w; xclients = insert path none c.xclients }, none, some err)
        | interrupted err ↦ (put_xclient path (settings_so_far c) w c, some x, some err)
      ]

  -- The section under the lock: another goroutine may have made the xclient.
  unfoldable pub get_or_make : Bytes → OneClient W → OneClient W × Option ℕ × Option E
  get_or_make path c = elim (known (lookup path c.xclients)) [
    | some x ↦ (c, some x, none)
    | none ↦ new_xclient path c
  ]

-- The calls of an xclient.
pub record Operations (W E : Type 0) : Type 0 where
  pub go : ℕ → W → W × Option E
  pub call : ℕ → W → W × Option E
  pub send_raw : ℕ → W → W × Option E
  pub broadcast : ℕ → W → W × Option E
  pub fork : ℕ → W → W × Option E
  pub send_file : ℕ → W → W × Option E
  pub download_file : ℕ → W → W × Option E
  pub stream : ℕ → W → W × Option E

module _ {W E : Type 0} (make : Bytes → W → W × Made E) (ops : Operations W E) where
  abbrev pub Method : Type 0
  Method = OneClient W → OneClient W × Option E

  -- The call of the xclient of a path; an error of its maker goes before it. A nil comes with an error.
  unfoldable pub on_xclient : (ℕ → W → W × Option E) → Option ℕ → Option E → Method
  on_xclient f x (some e) c = (c, some e)
  on_xclient f none none c = (c, none)
  on_xclient f (some x) none c = let (w, err) = f x c.world in (record c { world = w }, err)

  -- What every call does: a look under the read lock, and the section under the lock behind it.
  unfoldable pub with_xclient : Bytes → (ℕ → W → W × Option E) → Method
  with_xclient path f c = elim (known (lookup path c.xclients)) [
    | some x ↦ on_xclient f (some x) none c
    | none ↦ let (c1, x, e) = get_or_make make path c in on_xclient f x e c1
  ]

  unfoldable pub go : Bytes → Method
  go path = with_xclient path ops.go

  unfoldable pub call : Bytes → Method
  call path = with_xclient path ops.call

  unfoldable pub send_raw : Bytes → Method
  send_raw path = with_xclient path ops.send_raw

  unfoldable pub broadcast : Bytes → Method
  broadcast path = with_xclient path ops.broadcast

  unfoldable pub fork : Bytes → Method
  fork path = with_xclient path ops.fork

  unfoldable pub send_file : Method
  send_file = with_xclient send_file_service_name ops.send_file

  unfoldable pub download_file : Method
  download_file = with_xclient send_file_service_name ops.download_file

  unfoldable pub stream : Method
  stream = with_xclient stream_service_name ops.stream

  -- A section of some goroutine: a setter, a section that gets an xclient, or what else happens.
  pub data Step : OneClient W → OneClient W → Type 0 where
    sets_selector :
        {c c' : OneClient W} (path : Bytes) (s : ℕ) → set_selector path s c ≡ ran c' → Step c c'
    sets_plugins : {c c' : OneClient W} (p : ℕ) → set_plugins p c ≡ ran c' → Step c c'
    sets_geo :
        {c c' : OneClient W} (latitude longitude : ℕ)
        → config_geo_selector latitude longitude c ≡ ran c'
        → Step c c'
    sets_auth : {c c' : OneClient W} (token : Bytes) → auth token c ≡ ran c' → Step c c'
    closes : {c c' : OneClient W} → close c ≡ ran c' → Step c c'
    gets : {c : OneClient W} (path : Bytes) → Step c (get_or_make make path c).0
    others : {c : OneClient W} (w : W) → Step c (record c { world = w })

  pub data Run (c : OneClient W) : OneClient W → Type 0 where
    here : Run c c
    next : {d e : OneClient W} → Run c d → Step d e → Run c e
