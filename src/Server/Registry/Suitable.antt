-- ===== src/Server/Registry/Suitable.antt =====
-- Which methods `suitableMethods` installs.
use rpcx.Base.{
  ℕ, ◌≡◌, refl, ◌↔◌, ◌∙◌, sym, ap, subst, inl, inr, arith, Bool-cases, List, [], ◌∷◌, Option, none,
  some, Bytes, true, false, if◌then◌else◌, bytes_eq, bytes_eq→eq,
}
use rpcx.Base.Dict.{lookup, insert, lookup-insert, lookup_inserted, bytes_eq_inst}
use rpcx.Server.Registry.{
  GoType, Reflection, MethodInfo, Callable, is_pointer, is_exported_or_builtin_type, check_out,
  check_reply, check_argument, suitable_method, suitable_from, suitable_methods,
}

module _ (x : Reflection) where
  -- What the comment of `Register` asks of a method, and what is installed for it.
  pub record Suitable (m : MethodInfo) (c : Callable) : Type 0 where
    pub exported : m.pkg_path ≡ []
    pub receiver : GoType
    pub context : GoType
    pub out : GoType
    pub ins_eq : m.ins ≡ receiver ∷ context ∷ c.arg_type ∷ c.reply_type ∷ []
    pub outs_eq : m.outs ≡ out ∷ []
    pub context_is : x.implements_context context ≡ true
    pub argument_is : is_exported_or_builtin_type x c.arg_type ≡ true
    pub reply_points : is_pointer c.reply_type ≡ true
    pub reply_is : is_exported_or_builtin_type x c.reply_type ≡ true
    pub out_is : x.is_error_type out ≡ true
    pub same_body : c.body ≡ m.body

  -- A method by its fields.
  abbrev method : Bytes → Bytes → List GoType → List GoType → ℕ → MethodInfo
  method name pkg ins outs body = record {
    name = name;
    pkg_path = pkg;
    ins = ins;
    outs = outs;
    body = body;
  }

  fields-Suitable :
      (name pkg : Bytes) (ins outs : List GoType) (body : ℕ) (c : Callable)
      → suitable_method x (method name pkg ins outs body) ≡ some c
      → Suitable (method name pkg ins outs body) c
  unfolding suitable_method check_argument check_reply check_out
  fields-Suitable name (b ∷ pkg) ins outs body c h = cc
  fields-Suitable name [] [] outs body c h = cc
  fields-Suitable name [] (r ∷ []) outs body c h = cc
  fields-Suitable name [] (r ∷ t ∷ []) outs body c h = cc
  fields-Suitable name [] (r ∷ t ∷ a ∷ []) outs body c h = cc
  fields-Suitable name [] (r ∷ t ∷ a ∷ p ∷ q ∷ ins) outs body c h = absurd (ground arith)
  fields-Suitable name [] (r ∷ t ∷ a ∷ p ∷ []) [] body c h = absurd (ground arith)
  fields-Suitable name [] (r ∷ t ∷ a ∷ p ∷ []) (o ∷ o2 ∷ outs) body c h = absurd (ground arith)
  fields-Suitable name [] (r ∷ t ∷ a ∷ p ∷ []) (o ∷ []) body c h = record {
    exported = refl;
    receiver = r;
    context = t;
    out = o;
    ins_eq = ground arith;
    outs_eq = refl;
    context_is = ground arith;
    argument_is = ground arith;
    reply_points = ground arith;
    reply_is = ground arith;
    out_is = ground arith;
    same_body = ground arith;
  }

  checks_pass :
      (name : Bytes) (r t a p o : GoType) (body : ℕ)
      → x.implements_context t ≡ true
      → is_exported_or_builtin_type x a ≡ true
      → is_pointer p ≡ true
      → is_exported_or_builtin_type x p ≡ true
      → x.is_error_type o ≡ true
      → suitable_method x (method name [] (r ∷ t ∷ a ∷ p ∷ []) (o ∷ []) body)
        ≡ some (record { body = body; arg_type = a; reply_type = p })
  unfolding suitable_method check_argument check_reply check_out
  checks_pass name r t a p o body h1 h2 h3 h4 h5 =
      rw (h1, h2, h3, h4, h5, check_argument, check_reply, check_out) refl

  Suitable-fields :
      (name pkg : Bytes) (ins outs : List GoType) (body : ℕ) (c : Callable)
      → Suitable (method name pkg ins outs body) c
      → suitable_method x (method name pkg ins outs body) ≡ some c
  Suitable-fields name pkg ins outs body c h =
      let p : pkg ≡ [] = h.exported in
      let i : ins ≡ h.receiver ∷ h.context ∷ c.arg_type ∷ c.reply_type ∷ [] = h.ins_eq in
      let o : outs ≡ h.out ∷ [] = h.outs_eq in
      rw (p, i, o)
        (checks_pass name h.receiver h.context c.arg_type c.reply_type h.out body h.context_is
            h.argument_is h.reply_points h.reply_is h.out_is
          ∙ ap (λ b. some (record c { body = b })) (sym h.same_body))

  suitable_method_lem :
      (m : MethodInfo) (c : Callable) → (suitable_method x m ≡ some c) ↔ Suitable m c
  suitable_method_lem m c = (
    fields-Suitable m.name m.pkg_path m.ins m.outs m.body c,
    Suitable-fields m.name m.pkg_path m.ins m.outs m.body c,
  )

-- The method of a name.
abbrev pub method_named : Bytes → List MethodInfo → Option MethodInfo
method_named n [] = none
method_named n (m ∷ ms) = if bytes_eq m.name n then some m else method_named n ms

-- No two methods have one name, as in a method set of Go.
abbrev pub DistinctNames : List MethodInfo → Type 0
DistinctNames [] = Unit {0}
DistinctNames (m ∷ ms) = (method_named m.name ms ≡ none) × DistinctNames ms

module _ (x : Reflection) where
  -- What is installed under a name, over what was there.
  abbrev pub installed : Option MethodInfo → Option Callable → Option Callable
  installed none old = old
  installed (some m) old = elim (suitable_method x m) [ none ↦ old | some c ↦ some c ]

  abbrev add : Bytes → Option Callable → List (Bytes × Callable) → List (Bytes × Callable)
  add name none methods = methods
  add name (some c) methods = insert name c methods

  suitable_step :
      (m : MethodInfo) (ms : List MethodInfo) (acc : List (Bytes × Callable))
      → suitable_from x (m ∷ ms) acc ≡ suitable_from x ms (add m.name (suitable_method x m) acc)
  unfolding suitable_from
  suitable_step m ms acc = go (suitable_method x m)
    where
      go :
          (o : Option Callable)
          → suitable_from x ms (elim o [ none ↦ acc | some c ↦ insert m.name c acc ])
            ≡ suitable_from x ms (add m.name o acc)
      go none = refl
      go (some c) = refl

  lookup-add_other :
      (n name : Bytes) (o : Option Callable) (acc : List (Bytes × Callable))
      → bytes_eq name n ≡ false
      → lookup n (add name o acc) ≡ lookup n acc
  lookup-add_other n name none acc h = refl
  lookup-add_other n name (some c) acc h =
      lookup-insert name n c acc ∙ ap (λ b. if b then some c else lookup n acc) h

  lookup-add_same :
      (m : MethodInfo) (o : Option Callable) (acc : List (Bytes × Callable))
      → lookup m.name (add m.name o acc) ≡ elim o [ none ↦ lookup m.name acc | some c ↦ some c ]
  lookup-add_same m none acc = refl
  lookup-add_same m (some c) acc = lookup_inserted m.name c acc

  lookup-suitable_from :
      (n : Bytes) (ms : List MethodInfo) (acc : List (Bytes × Callable))
      → DistinctNames ms
      → lookup n (suitable_from x ms acc) ≡ installed (method_named n ms) (lookup n acc)
  unfolding suitable_from
  lookup-suitable_from n [] acc d = refl
  lookup-suitable_from n (m ∷ ms) acc (new, d) =
      let acc' = add m.name (suitable_method x m) acc in
      rw (suitable_step m ms acc) (elim (Bool-cases (bytes_eq m.name n)) [
        | inl same ↦
            let e : m.name ≡ n = bytes_eq→eq m.name n same in
            rw same (
              lookup-suitable_from n ms acc' d
              ∙ ap (λ o. installed o (lookup n acc')) (subst (λ k. method_named k ms ≡ none) e new)
              ∙ subst (λ k. lookup k acc' ≡ installed (some m) (lookup k acc)) e
                  (lookup-add_same m (suitable_method x m) acc))
        | inr other ↦ rw other (
            lookup-suitable_from n ms acc' d
            ∙ ap (λ o. installed (method_named n ms) o)
                (lookup-add_other n m.name (suitable_method x m) acc other))
      ])

  -- A method is found under its name if and only if the receiver has it and it is suitable.
  pub lookup-suitable_methods :
      (n : Bytes) (ms : List MethodInfo)
      → DistinctNames ms
      → lookup n (suitable_methods x ms) ≡ installed (method_named n ms) none
  unfolding suitable_methods lookup
  lookup-suitable_methods n ms d = lookup-suitable_from n ms [] d

  pub installed-Suitable :
      (m : MethodInfo) (c : Callable) → Suitable x m c → installed (some m) none ≡ some c
  installed-Suitable m c h = rw ((suitable_method_lem x m c).1 h, installed) refl
