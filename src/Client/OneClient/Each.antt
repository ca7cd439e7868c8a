-- ===== src/Client/OneClient/Each.antt =====
-- The loops of a OneClient over its xclients, and what holds of the settings of all of them.
use rpcx.Base.{
  ℕ, ◌≤◌, ◌<◌, ◌≡◌, refl, subst, ◌==◌, arith, List, [], ◌∷◌, Option, none, some, Bytes, Bool, true,
  false, if◌then◌else◌, bytes_eq, on_bool, on_bool_eq, ==_iff,
}
use rpcx.Base.Dict.{insert, bytes_eq_inst}
use rpcx.Client.Conn.{at}
use rpcx.Client.OneClient.{Made, made, failed, interrupted, Settings, Ran, ran, panics, set_each}

-- What holds of a result that is not a panic.
abbrev pub Holds : {A : Type 0} → (A → Type 0) → Ran A → Type 0
Holds P panics = Unit {0}
Holds P (ran a) = P a

pub of_Holds : {A : Type 0} (P : A → Type 0) (r : Ran A) (a : A) → Holds P r → r ≡ ran a → P a
of_Holds P panics a h e = cc
of_Holds P (ran b) a h e = subst (Holds P) e h

Holds-both :
    {A : Type 0} (P Q R : A → Type 0)
    → ((a : A) → P a → Q a → R a)
    → (r : Ran A) → Holds P r
    → Holds Q r
    → Holds R r
Holds-both P Q R f panics h k = tt
Holds-both P Q R f (ran a) h k = f a h k

-- Every xclient of a map is an old number, and has the settings.
abbrev pub AllSet : (Settings → Type 0) → ℕ → List (Bytes × Option ℕ) → (ℕ → Settings) → Type 0
AllSet P n [] st = Unit {0}
AllSet P n ((k, none) ∷ m) st = AllSet P n m st
AllSet P n ((k, some x) ∷ m) st = (x < n) × (P (st x) × AllSet P n m st)

at_lem :
    (P : Settings → Type 0) (st : ℕ → Settings) (x y : ℕ) (a : Settings)
    → P a
    → P (st y)
    → P (at st x a y)
at_lem P st x y a h k = on_bool P (y == x) h k

pub AllSet-at :
    (P : Settings → Type 0) (n : ℕ) (m : List (Bytes × Option ℕ)) (st : ℕ → Settings) (x : ℕ)
    (a : Settings)
    → P a
    → AllSet P n m st
    → AllSet P n m (at st x a)
AllSet-at P n [] st x a p h = tt
AllSet-at P n ((k, none) ∷ m) st x a p h = AllSet-at P n m st x a p h
AllSet-at P n ((k, some y) ∷ m) st x a p (l, (q, h)) =
    (l, (at_lem P st x y a p q, AllSet-at P n m st x a p h))

module _ (P R : Settings → Type 0) (f : Settings → Settings) (sets : (a : Settings) → R a → P (f a))
    (weaker : (a : Settings) → P a → R a) where
  -- A loop keeps what its function brings about.
  set_each_kept :
      (m : List (Bytes × Option ℕ)) (st : ℕ → Settings) (y : ℕ)
      → P (st y)
      → Holds (λ (st' : ℕ → Settings). P (st' y)) (set_each f m st)
  unfolding set_each
  set_each_kept [] st y h = h
  set_each_kept ((k, none) ∷ m) st y h = tt
  set_each_kept ((k, some x) ∷ m) st y h = set_each_kept m (at st x (f (st x))) y (go (y == x) refl)
    where
      go : (b : Bool) → (y == x) ≡ b → P (if b then f (st x) else st y)
      go true e = sets (st x) (weaker (st x) (subst (λ z. P (st z)) ((==_iff y x).0 e) h))
      go false e = h

  pub set_each_all :
      (n : ℕ) (m : List (Bytes × Option ℕ)) (st : ℕ → Settings)
      → AllSet R n m st
      → Holds (λ (st' : ℕ → Settings). AllSet P n m st') (set_each f m st)
  unfolding set_each
  set_each_all n [] st h = tt
  set_each_all n ((k, none) ∷ m) st h = tt
  set_each_all n ((k, some x) ∷ m) st (l, (r, h)) =
      let st1 = at st x (f (st x)) in
      let p : P (f (st x)) = sets (st x) r in
      Holds-both (λ (t : ℕ → Settings). P (t x)) (λ (t : ℕ → Settings). AllSet P n m t)
        (λ (t : ℕ → Settings). (x < n) × (P (t x) × AllSet P n m t)) (λ t a b. (l, (a, b)))
        (set_each f m st1)
        (set_each_kept m st1 x
          (on_bool_eq (λ a. P a) (x == x) (λ _. p) (λ e. absurd (ground arith))))
        (set_each_all n m st1 (AllSet-at R n m st x (f (st x)) (weaker (f (st x)) p) h))

pub AllSet-map :
    (P R : Settings → Type 0) (n n' : ℕ)
    → n ≤ n'
    → ((a : Settings) → P a → R a)
    → (m : List (Bytes × Option ℕ)) (st : ℕ → Settings) → AllSet P n m st
    → AllSet R n' m st
AllSet-map P R n n' le f [] st h = tt
AllSet-map P R n n' le f ((k, none) ∷ m) st h = AllSet-map P R n n' le f m st h
AllSet-map P R n n' le f ((k, some x) ∷ m) st (l, (p, h)) =
    (omega arith, (f (st x) p, AllSet-map P R n n' le f m st h))

-- What holds of one value in a map.
abbrev pub HasSettings : (Settings → Type 0) → ℕ → (ℕ → Settings) → Option ℕ → Type 0
HasSettings P n st none = Unit {0}
HasSettings P n st (some x) = (x < n) × P (st x)

AllSet-cons :
    (P : Settings → Type 0) (n : ℕ) (k : Bytes) (o : Option ℕ) (m : List (Bytes × Option ℕ))
    (st : ℕ → Settings)
    → HasSettings P n st o
    → AllSet P n m st
    → AllSet P n ((k, o) ∷ m) st
AllSet-cons P n k none m st p h = h
AllSet-cons P n k (some x) m st (l, p) h = (l, (p, h))

pub AllSet-insert :
    (P : Settings → Type 0) (n : ℕ) (k : Bytes) (o : Option ℕ) (m : List (Bytes × Option ℕ))
    (st : ℕ → Settings)
    → HasSettings P n st o
    → AllSet P n m st
    → AllSet P n (insert k o m) st
unfolding insert
AllSet-insert P n k o [] st p h = AllSet-cons P n k o [] st p h
AllSet-insert P n k o ((j, none) ∷ m) st p h =
    on_bool (λ l. AllSet P n l st) (bytes_eq j k) (AllSet-cons P n k o m st p h)
      (AllSet-insert P n k o m st p h)
AllSet-insert P n k o ((j, some y) ∷ m) st p (l, (q, h)) =
    on_bool (λ l'. AllSet P n l' st) (bytes_eq j k) (AllSet-cons P n k o m st p h)
      (l, (q, AllSet-insert P n k o m st p h))

pub AllSet-at_from :
    (P : Settings → Type 0) (n : ℕ) (m : List (Bytes × Option ℕ)) (st : ℕ → Settings) (x : ℕ)
    (a : Settings)
    → (P (st x) → P a)
    → AllSet P n m st
    → AllSet P n m (at st x a)
AllSet-at_from P n [] st x a f h = tt
AllSet-at_from P n ((k, none) ∷ m) st x a f h = AllSet-at_from P n m st x a f h
AllSet-at_from P n ((k, some y) ∷ m) st x a f (l, (q, h)) =
    (l, (go (y == x) refl, AllSet-at_from P n m st x a f h))
  where
    go : (b : Bool) → (y == x) ≡ b → P (if b then a else st y)
    go true e = f (subst (λ z. P (st z)) ((==_iff y x).0 e) q)
    go false e = q

-- The three ends of `newXClient`.
pub on_made :
    {A E : Type 0} (P : A → Type 0) {a b : E → A} {c : A} (m : Made E)
    → (m ≡ made → P c)
    → ((e : E) → m ≡ failed e → P (a e))
    → ((e : E) → m ≡ interrupted e → P (b e))
    → P (elim m [ made ↦ c | failed e ↦ a e | interrupted e ↦ b e ])
on_made P made f g h = f refl
on_made P (failed e) f g h = g e refl
on_made P (interrupted e) f g h = h e refl
