-- ===== src/Client/OneClient/Uniform.antt =====
-- All xclients of a OneClient have the settings that were set last.
use rpcx.Base.{
  ℕ, suc, ◌≡◌, ◌≢◌, refl, ◌==◌, arith, List, ◌++◌, Option, none, some, Bytes, on_bool_eq, on_option,
}
use rpcx.Base.Dict.{lookup, bytes_eq_inst}
use rpcx.Client.Conn.{at}
use rpcx.Client.OneClient.{
  Made, interrupted, put_xclient, custom, geo, Settings, OneClient, Ran, ran, panics, collect,
  known, new_one_client, with_settings, set_selector, set_plugins, config_geo_selector, auth, close,
  first_settings, new_xclient, get_or_make, Operations, Step, sets_selector, sets_plugins, sets_geo,
  sets_auth, closes, gets, others, Run, here, next,
}
use rpcx.Client.OneClient.Each.{
  Holds, of_Holds, AllSet, AllSet-at, AllSet-insert, AllSet-map, AllSet-at_from, set_each_all,
  on_made,
}

abbrev pub Agrees : Bytes → Option ℕ → Settings → Type 0
Agrees token plugins st = (st.auth ≡ token) × (st.plugins ≡ plugins)

-- Every xclient of the map has the token and the plugins of the OneClient.
abbrev pub IsUniform : {W : Type 0} → OneClient W → Type 0
IsUniform c = AllSet (Agrees c.auth c.plugins) c.next_xclient c.xclients c.settings

module _ {W E : Type 0} (make : Bytes → W → W × Made E) (ops : Operations W E)
    (calm : (path : Bytes) (w : W) (e : E) → (make path w).1 ≢ interrupted e) where
  of_with_settings :
      (c : OneClient W) (r : Ran (ℕ → Settings)) {c' : OneClient W}
      → Holds
          (λ (st : ℕ → Settings). AllSet (Agrees c.auth c.plugins) c.next_xclient c.xclients st)
          r
      → with_settings c r ≡ ran c'
      → IsUniform c'
  unfolding with_settings
  of_with_settings c panics h e = cc
  of_with_settings c (ran st) {c'} h e =
      of_Holds (λ (d : OneClient W). IsUniform d) (ran (record c { settings = st })) c' h e

  set_selector-IsUniform :
      (path : Bytes) (s : ℕ) (c : OneClient W)
      → IsUniform c
      → Holds (λ (d : OneClient W). IsUniform d) (set_selector path s c)
  unfolding set_selector
  set_selector-IsUniform path s c h =
      on_option (λ r. Holds (λ (d : OneClient W). IsUniform d) r) (lookup path c.xclients) h
        (λ o.
          on_option (λ r. Holds (λ (d : OneClient W). IsUniform d) r) o tt
            (λ x.
              AllSet-at_from (Agrees c.auth c.plugins) c.next_xclient c.xclients c.settings x
                (record (c.settings x) { selector = custom s }) (λ q. q) h))

  close-IsUniform :
      (c : OneClient W) → IsUniform c → Holds (λ (d : OneClient W). IsUniform d) (close c)
  unfolding close
  close-IsUniform c h = go (collect c.xclients)
    where
      go :
          (r : Ran (List ℕ))
          → Holds
              (λ (d : OneClient W). IsUniform d)
              (elim r [ panics ↦ panics | ran xs ↦ ran (record c { closed = c.closed ++ xs }) ])
      go panics = tt
      go (ran xs) = h

  new_xclient-IsUniform :
      (path : Bytes) (c : OneClient W) → IsUniform c → IsUniform (new_xclient make path c).0
  unfolding new_xclient put_xclient first_settings
  new_xclient-IsUniform path c h =
      let x = c.next_xclient in
      let P = Agrees c.auth c.plugins in
      let st1 = at c.settings x (first_settings path c) in
      on_made (λ (r : OneClient W × Option ℕ × Option E). IsUniform r.0) (make path c.world).1
        (λ _.
          AllSet-insert P (suc x) path (some x) c.xclients st1
            (
              omega arith,
              on_bool_eq (λ a. P a) (x == x) (λ _. (refl, refl)) (λ e. absurd (ground arith)),
            )
            (AllSet-map P P x (suc x) (omega arith) (λ a q. q) c.xclients st1
              (AllSet-at P x c.xclients c.settings x (first_settings path c) (refl, refl) h)))
        (λ err _. AllSet-insert P x path none c.xclients c.settings tt h)
        (λ err e. absurd (calm path c.world err e))

  get_or_make-IsUniform :
      (path : Bytes) (c : OneClient W) → IsUniform c → IsUniform (get_or_make make path c).0
  unfolding get_or_make
  get_or_make-IsUniform path c h =
      on_option (λ (r : OneClient W × Option ℕ × Option E). IsUniform r.0)
        (known (lookup path c.xclients)) (new_xclient-IsUniform path c h) (λ x. h)

  Step-IsUniform : {c c' : OneClient W} → Step make ops c c' → IsUniform c → IsUniform c'
  unfolding set_plugins config_geo_selector auth
  Step-IsUniform (sets_selector {c} {c'} path s e) h =
      of_Holds (λ (d : OneClient W). IsUniform d) (set_selector path s c) c'
        (set_selector-IsUniform path s c h) e
  Step-IsUniform (sets_plugins {c} p e) h =
      let P = Agrees c.auth (some p) in
      let R = λ (st : Settings). st.auth ≡ c.auth in
      of_with_settings (record c { plugins = some p }) _
        (set_each_all P R (λ st. record st { plugins = some p }) (λ a r. (r, refl)) (λ a q. q.0)
          c.next_xclient c.xclients c.settings
          (AllSet-map (Agrees c.auth c.plugins) R c.next_xclient c.next_xclient (omega arith)
            (λ a q. q.0) c.xclients c.settings h))
        e
  Step-IsUniform (sets_geo {c} latitude longitude e) h =
      let P = Agrees c.auth c.plugins in
      of_with_settings (record c { closest = some (latitude, longitude) }) _
        (set_each_all P P (λ st. record st { selector = geo latitude longitude }) (λ a r. r)
          (λ a q. q) c.next_xclient c.xclients c.settings h)
        e
  Step-IsUniform (sets_auth {c} token e) h =
      let P = Agrees token c.plugins in
      let R = λ (st : Settings). st.plugins ≡ c.plugins in
      of_with_settings (record c { auth = token }) _
        (set_each_all P R (λ st. record st { auth = token }) (λ a r. (refl, r)) (λ a q. q.1)
          c.next_xclient c.xclients c.settings
          (AllSet-map (Agrees c.auth c.plugins) R c.next_xclient c.next_xclient (omega arith)
            (λ a q. q.1) c.xclients c.settings h))
        e
  Step-IsUniform (closes {c} {c'} e) h =
      of_Holds (λ (d : OneClient W). IsUniform d) (close c) c' (close-IsUniform c h) e
  Step-IsUniform (gets {c} path) h = get_or_make-IsUniform path c h
  Step-IsUniform (others w) h = h

  -- In every run in which no two setters overlap, and no selector panics while an xclient is made, each xclient of the map has the token and the
  -- container of plugins that were given to the OneClient last, whether it was made before or behind
  -- that.
  pub settings_follow :
      (closest : Option (ℕ × ℕ)) (st : ℕ → Settings) (w : W) {c : OneClient W}
      → Run make ops (new_one_client closest st w) c
      → IsUniform c
  unfolding new_one_client
  settings_follow closest st w here = tt
  settings_follow closest st w (next r step) = Step-IsUniform step (settings_follow closest st w r)
