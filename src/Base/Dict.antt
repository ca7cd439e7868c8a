-- ===== src/Base/Dict.antt =====
-- Go maps as association lists, over any key type with a Boolean equality.
use rpcx.Base.{
  ℕ, ◌≡◌, refl, sym, ◌∙◌, ◌++◌, append-nil, append_assoc, ◌↔◌, Bool, true, false, Option, none,
  some, List, [], ◌∷◌, arith, Bytes, bytes_eq, bytes_eq→eq, bytes_eq_refl, ==_iff, if◌then◌else◌,
}
use rpcx.Base.{◌==◌ as nat_beq}

pub record Eq {ℓ} (K : Type ℓ) : Type ℓ where
  pub beq : K → K → Bool
  pub beq_iff : (a b : K) → (beq a b ≡ true) ↔ (a ≡ b)

abbrev pub eqb {ℓ} : {K : Type ℓ} ⦃e : Eq K⦄ → K → K → Bool
eqb ⦃e⦄ = e.beq

instance abbrev pub nat_eq : Eq ℕ
nat_eq = record { beq = nat_beq; beq_iff = ==_iff }

pub bytes_eq_iff : (a b : Bytes) → (bytes_eq a b ≡ true) ↔ (a ≡ b)
bytes_eq_iff a b = (bytes_eq→eq a b, λ p. rw p (bytes_eq_refl b))

instance abbrev pub bytes_eq_inst : Eq Bytes
bytes_eq_inst = record { beq = bytes_eq; beq_iff = bytes_eq_iff }

module _ {ℓ κ} {K : Type ℓ} {V : Type κ} ⦃e : Eq K⦄ where
  -- `m[k]`, `none` when the key is missing.
  unfoldable pub lookup : K → List (K × V) → Option V
  lookup k [] = none
  lookup k ((j, v) ∷ m) = if e.beq j k then some v else lookup k m

  -- `m[k] = v`
  unfoldable pub insert : K → V → List (K × V) → List (K × V)
  insert k v [] = (k, v) ∷ []
  insert k v ((j, w) ∷ m) = if e.beq j k then (k, v) ∷ m else (j, w) ∷ insert k v m

  -- `delete(m, k)`
  unfoldable pub delete : K → List (K × V) → List (K × V)
  delete k [] = []
  delete k ((j, v) ∷ m) = if e.beq j k then delete k m else (j, v) ∷ delete k m

  pub lookup-insert :
      (k j : K) (v : V) (m : List (K × V))
      → lookup j (insert k v m) ≡ (if e.beq k j then some v else lookup j m)
  unfolding lookup insert
  lookup-insert k j v [] = refl
  lookup-insert k j v ((i, w) ∷ m) =
      ground (arith, e.beq_iff k j, e.beq_iff i k, e.beq_iff i j, lookup-insert k j v m)

  pub lookup_inserted : (k : K) (v : V) (m : List (K × V)) → lookup k (insert k v m) ≡ some v
  lookup_inserted k v m = ground (arith, lookup-insert k k v m, e.beq_iff k k)

  pub lookup-delete :
      (k j : K) (m : List (K × V))
      → lookup j (delete k m) ≡ (if e.beq k j then none else lookup j m)
  unfolding lookup delete
  lookup-delete k j [] = ground arith
  lookup-delete k j ((i, w) ∷ m) =
      ground (arith, e.beq_iff k j, e.beq_iff i k, e.beq_iff i j, lookup-delete k j m)

  -- No key stands twice.
  abbrev pub Distinct : List (K × V) → Type κ
  Distinct [] = Unit {κ}
  Distinct ((k, v) ∷ m) = (lookup k m ≡ none) × Distinct m

  unfoldable pub insert_all : List (K × V) → List (K × V) → List (K × V)
  insert_all m [] = m
  insert_all m ((k, v) ∷ kvs) = insert_all (insert k v m) kvs

  pub insert_new :
      (k : K) (v : V) (m : List (K × V)) → lookup k m ≡ none → insert k v m ≡ m ++ (k, v) ∷ []
  unfolding lookup insert
  insert_new k v [] h = refl
  insert_new k v ((j, w) ∷ m) h = ground (arith, insert_new k v m)

  lookup_middle :
      (j k : K) (v : V) (m n : List (K × V)) → lookup j (m ++ (k, v) ∷ n) ≡ none → e.beq k j ≡ false
  unfolding lookup
  lookup_middle j k v [] n h = ground arith
  lookup_middle j k v ((i, w) ∷ m) n h = ground (arith, lookup_middle j k v m n)

  new_of_Distinct :
      (k : K) (v : V) (m n : List (K × V)) → Distinct (m ++ (k, v) ∷ n) → lookup k m ≡ none
  unfolding lookup
  new_of_Distinct k v [] n d = refl
  new_of_Distinct k v ((j, w) ∷ m) n (new, d) =
      ground (
        arith,
        lookup_middle j k v m n new,
        e.beq_iff j k,
        e.beq_iff k j,
        new_of_Distinct k v m n d,
      )

  -- Distinct new keys go to the end in their order.
  pub insert_all_new : (m kvs : List (K × V)) → Distinct (m ++ kvs) → insert_all m kvs ≡ m ++ kvs
  unfolding insert_all
  insert_all_new m [] d = sym (append-nil m)
  insert_all_new m ((k, v) ∷ kvs) d =
      rw (insert_new k v m (new_of_Distinct k v m kvs d)) (
        insert_all_new (m ++ (k, v) ∷ []) kvs (rw append_assoc d)
        ∙ append_assoc m ((k, v) ∷ []) kvs)
