-- ===== src/Client/Conn/Account/Table.antt =====
-- The table of waiting calls: its keys are distinct and below the next sequence number.
use rpcx.Base.{
  ℕ, ◌+◌, ◌≤◌, ◌<◌, ◌≡◌, ◌≢◌, refl, arith, List, [], ◌∷◌, ◌++◌, none, some, ◌==◌, if◌then◌else◌,
}
use rpcx.Base.Dict.{lookup, delete, Distinct, nat_eq, lookup-delete}
use rpcx.Client.Conn.Events.{held}

abbrev pub Table : Type 0
Table = List (ℕ × ℕ)

abbrev pub Below : ℕ → Table → Type 0
Below n [] = Unit {0}
Below n ((k, _) ∷ m) = (k < n) × Below n m

pub Below-mono : (a b : ℕ) (m : Table) → a ≤ b → Below a m → Below b m
Below-mono a b [] h p = tt
Below-mono a b ((k, i) ∷ m) h (p, q) = (omega arith, Below-mono a b m h q)

pub lookup-Below : (n : ℕ) (m : Table) → Below n m → lookup n m ≡ none
unfolding lookup
lookup-Below n [] h = refl
lookup-Below n ((k, i) ∷ m) (p, q) = ground (arith, lookup-Below n m q)

pub delete-Below : (n k : ℕ) (m : Table) → Below n m → Below n (delete k m)
unfolding delete
delete-Below n k [] h = tt
delete-Below n k ((j, i) ∷ m) (p, q) = ground (arith, delete-Below n k m q)

pub delete_absent : (k : ℕ) (m : Table) → lookup k m ≡ none → delete k m ≡ m
unfolding lookup delete
delete_absent k [] h = refl
delete_absent k ((j, i) ∷ m) h = ground (arith, delete_absent k m)

pub held-delete :
    (j k id : ℕ) (m : Table)
    → Distinct m
    → lookup k m ≡ some id
    → held j m ≡ (if j == id then 1 else 0) + held j (delete k m)
unfolding lookup delete
held-delete j k id [] d h = cc
held-delete j k id ((l, i) ∷ m) (new, d) h =
    ground (arith, held-delete j k id m d, delete_absent k m)

pub delete-Distinct : (k : ℕ) (m : Table) → Distinct m → Distinct (delete k m)
unfolding delete
delete-Distinct k [] d = tt
delete-Distinct k ((l, i) ∷ m) (new, d) = ground (arith, delete-Distinct k m d, lookup-delete k l m)

-- A new entry.
pub held-append :
    (j k i : ℕ) (m : Table) → held j (m ++ (k, i) ∷ []) ≡ (if j == i then 1 else 0) + held j m
held-append j k i [] = refl
held-append j k i ((l, x) ∷ m) = omega (arith, held-append j k i m)

pub append-Below : (n k i : ℕ) (m : Table) → k < n → Below n m → Below n (m ++ (k, i) ∷ [])
append-Below n k i [] h b = (h, tt)
append-Below n k i ((l, x) ∷ m) h (p, q) = (p, append-Below n k i m h q)

lookup-append_new :
    (l k i : ℕ) (m : Table) → lookup l m ≡ none → l ≢ k → lookup l (m ++ (k, i) ∷ []) ≡ none
unfolding lookup
lookup-append_new l k i [] h n = ground arith
lookup-append_new l k i ((x, y) ∷ m) h n = ground (arith, lookup-append_new l k i m)

pub append-Distinct :
    (k i : ℕ) (m : Table) → lookup k m ≡ none → Distinct m → Distinct (m ++ (k, i) ∷ [])
unfolding lookup
append-Distinct k i [] h d = (refl, tt)
append-Distinct k i ((l, x) ∷ m) h (new, d) =
    (lookup-append_new l k i m new (ground arith), append-Distinct k i m (ground arith) d)
