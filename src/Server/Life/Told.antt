-- ===== src/Server/Life/Told.antt =====
-- How often the plugins are told that a connection is closed.
use rpcx.Base.{
  ℕ, ◌+◌, ◌≤◌, ◌≡◌, refl, ◌∙◌, sym, ap, subst, ◌==◌, if◌then◌else◌, inl, inr, arith, List, [], ◌∷◌,
  ◌++◌, Option, none, some, Bool-cases, on_bool, ==_iff,
}
use rpcx.Base.Dict.{lookup, lookup-insert, nat_eq}
use rpcx.Server.Plugins.{Plugin}
use rpcx.Server.Life.{
  Phase, accepted, serving, leaving, closing, gone, Life, without, close_conn, close_each,
  close_done, close_server, begin_shutdown, end_shutdown, set_phase, accept_conn, start_conn, Step,
  accepts, starts, leaves, passes, ends, handles, handled, closes, begins, drains, expires,
  finishes, Run, here, next, new_life,
}

-- How often a connection stands in a list.
unfoldable pub times : ℕ → List ℕ → ℕ
times c [] = 0
times c (d ∷ ds) = (if d == c then 1 else 0) + times c ds

times-append : (c : ℕ) (l m : List ℕ) → times c (l ++ m) ≡ times c l + times c m
unfolding times
times-append c [] m = omega arith
times-append c (d ∷ l) m = omega (arith, times-append c l m)

times-without : (c d : ℕ) (l : List ℕ) → times c (without d l) ≡ (if d == c then 0 else times c l)
unfolding times without
times-without c d [] = ground arith
times-without c d (e ∷ l) = ground (arith, times-without c d l)

-- What the counts of a connection may be, by the phase of its goroutine: its notices, and how often
-- it is active.
abbrev pub Counted : Option Phase → ℕ → ℕ → Type 0
Counted none told active = (told ≡ 0) × (active ≡ 0)
Counted (some accepted) told active = told + active ≡ 1
Counted (some serving) told active = told + active ≡ 1
Counted (some leaving) told active = told + active ≡ 1
Counted (some closing) told active = told + active ≡ 1
Counted (some gone) told active = (active ≡ 0) × (1 ≤ told) × (told ≤ 2)

abbrev IsCounted : {W : Type 0} → ℕ → Life W → Type 0
IsCounted c s = Counted (lookup c s.conns) (times c s.told) (times c s.active)

-- A connection that is closed with the server stays counted.
closed-Counted :
    (p : Option Phase) (told active told' : ℕ)
    → told' ≡ told + active
    → Counted p told active
    → Counted p told' 0
closed-Counted none t a t' e (z, y) = (omega arith, omega arith)
closed-Counted (some accepted) t a t' e h = omega arith
closed-Counted (some serving) t a t' e h = omega arith
closed-Counted (some leaving) t a t' e h = omega arith
closed-Counted (some closing) t a t' e h = omega arith
closed-Counted (some gone) t a t' e (z, l, u) = (omega arith, omega arith, omega arith)

module _ {W : Type 0} (ps : List (Plugin W)) (c : ℕ) where
  told-close_each :
      (cs : List ℕ) (s : Life W) → times c (close_each ps cs s).told ≡ times c s.told + times c cs
  unfolding close_each close_conn times
  told-close_each [] s = omega arith
  told-close_each (d ∷ cs) s =
      omega (arith, told-close_each cs (close_conn ps d s), times-append c s.told (d ∷ []))

  active-close_each :
      (cs : List ℕ) (s : Life W)
      → times c s.active ≤ times c cs
      → times c (close_each ps cs s).active ≡ 0
  unfolding close_each close_conn times
  active-close_each [] s h = omega arith
  active-close_each (d ∷ cs) s h =
      active-close_each cs (close_conn ps d s) (ground (arith, times-without c d s.active))

  conns-close_each : (cs : List ℕ) (s : Life W) → (close_each ps cs s).conns ≡ s.conns
  unfolding close_each close_conn
  conns-close_each [] s = refl
  conns-close_each (d ∷ cs) s = conns-close_each cs (close_conn ps d s)

  close_server-IsCounted : (s : Life W) → IsCounted c s → IsCounted c (close_server ps s)
  unfolding close_server close_done
  close_server-IsCounted s h =
      rw (conns-close_each s.active s, active-close_each s.active s (omega arith))
        (closed-Counted (lookup c s.conns) (times c s.told) (times c s.active) _
          (told-close_each s.active s) h)

  -- The goroutine of `d` goes to another phase of those before its end.
  moved :
      (d : ℕ) (p q : Phase) (s : Life W)
      → lookup d s.conns ≡ some p
      → ((t a : ℕ) → Counted (some p) t a → Counted (some q) t a)
      → IsCounted c s
      → IsCounted c (set_phase d q s)
  unfolding set_phase
  moved d p q s e f h = elim (Bool-cases (d == c)) [
    | inl same ↦
        let dc = (==_iff d c).0 same in
        rw (lookup-insert d c q s.conns, same)
          (f _ _ (
            subst (λ o. Counted o (times c s.told) (times c s.active))
              (ap (λ k. lookup k s.conns) (sym dc) ∙ e) h))
    | inr other ↦ rw (lookup-insert d c q s.conns, other) h
  ]

  Step-IsCounted : {s t : Life W} → Step ps s t → IsCounted c s → IsCounted c t
  unfolding set_phase accept_conn close_conn start_conn begin_shutdown end_shutdown times
  Step-IsCounted (accepts {s} d e) h = elim (Bool-cases (d == c)) [
    | inl same ↦
        let dc = (==_iff d c).0 same in
        let new : (times c s.told ≡ 0) × (times c s.active ≡ 0) =
          subst (λ o. Counted o (times c s.told) (times c s.active))
            (ap (λ k. lookup k s.conns) (sym dc) ∙ e) h in
        rw (lookup-insert d c accepted s.conns, same) (omega (arith, new.0, new.1))
    | inr other ↦
        rw (lookup-insert d c accepted s.conns, other)
          (subst (λ a. Counted (lookup c s.conns) (times c s.told) a) (omega arith) h)
  ]
  Step-IsCounted (starts {s} d e) h =
      on_bool (λ q. IsCounted c (set_phase d q s)) s.in_shutdown
        (moved d accepted closing s e (λ t a k. k) h) (moved d accepted serving s e (λ t a k. k) h)
  Step-IsCounted (leaves {s} d e) h = moved d serving leaving s e (λ t a k. k) h
  Step-IsCounted (passes {s} d e m) h = moved d leaving closing s e (λ t a k. k) h
  Step-IsCounted (ends {s} d e) h = elim (Bool-cases (d == c)) [
    | inl same ↦
        let dc = (==_iff d c).0 same in
        let old : times c s.told + times c s.active ≡ 1 =
          subst (λ o. Counted o (times c s.told) (times c s.active))
            (ap (λ k. lookup k s.conns) (sym dc) ∙ e) h in
        rw (lookup-insert d c gone s.conns, same)
          (
            ground (arith, times-without c d s.active),
            ground (arith, times-append c s.told (d ∷ [])),
            ground (arith, times-append c s.told (d ∷ [])),
          )
    | inr other ↦
        rw (lookup-insert d c gone s.conns, other)
          (subst (λ t. Counted (lookup c s.conns) t (times c (without d s.active)))
            (ground (arith, times-append c s.told (d ∷ [])))
            (subst (λ a. Counted (lookup c s.conns) (times c s.told) a)
              (ground (arith, times-without c d s.active)) h))
  ]
  Step-IsCounted handles h = h
  Step-IsCounted (handled p) h = h
  Step-IsCounted (closes {s}) h = close_server-IsCounted s h
  Step-IsCounted (begins sm e) h = h
  Step-IsCounted (drains e i) h = h
  Step-IsCounted (expires e) h = h
  Step-IsCounted (finishes {s} e) h = close_server-IsCounted s h

  Run-IsCounted : (w : W) {s : Life W} → Run ps (new_life w) s → IsCounted c s
  unfolding new_life lookup times
  Run-IsCounted w here = (refl, refl)
  Run-IsCounted w (next r st) = Step-IsCounted st (Run-IsCounted w r)

  -- In every run, when the goroutine of a connection ends, the connection is not active any more, and
  -- the plugins were told of its close once if it was active until then, and twice if `Close` or
  -- `Shutdown` had closed it before.
  pub told_at_end :
      (w : W) {s : Life W}
      → Run ps (new_life w) s
      → lookup c s.conns ≡ some closing
      → (times c (set_phase c gone (close_conn ps c s)).active ≡ 0)
        × (times c (set_phase c gone (close_conn ps c s)).told + times c s.active ≡ 2)
  unfolding set_phase close_conn times
  told_at_end w {s} r e =
      let old : times c s.told + times c s.active ≡ 1 =
        subst (λ o. Counted o (times c s.told) (times c s.active)) e (Run-IsCounted w r) in
      (ground (arith, times-without c c s.active), ground (arith, times-append c s.told (c ∷ [])))
