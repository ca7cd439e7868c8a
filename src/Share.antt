-- ===== src/Share.antt =====
-- `Context` of share/context.go: the tags of a context, and the metadata of its requests. A key is a
-- number, and `none` is the nil key; the parent context is a parameter, and so is the lock, which
-- makes each method one step. A map of metadata is a reference into a heap, since a context may
-- share it with its parent. The methods put an empty map of tags in the place of a nil one; but for
-- `get_value` this is left out, since nothing tells the two apart.
mod Tests
use rpcx.Base.{
  ℕ, suc, ◌+◌, ◌≡◌, refl, ap, ◌∙◌, arith, List, [], ◌∷◌, Option, none, some, Bytes, ◌==◌,
  if◌then◌else◌, Option-cases, inl, inr, bytes_eq,
}
use rpcx.Base.Dict.{lookup, insert, delete, lookup_inserted, lookup-insert, nat_eq, bytes_eq_inst}
use rpcx.Protocol.Metadata.{Meta}

-- What a key may stand for: a map of metadata, or anything else.
pub data Value : Type 0 where
  meta_map other : ℕ → Value

-- `tags` is `none` for the nil map.
pub record Context : Type 0 where
  pub tags : Option (List (ℕ × Value))

pub record State : Type 0 where
  pub context : Context
  pub maps : List (ℕ × Meta)
  -- The reference of the next map that is made.
  pub next : ℕ

abbrev pub req_meta_data_key : ℕ
req_meta_data_key = 1

abbrev pub tags_of : Context → List (ℕ × Value)
tags_of c = elim c.tags [ none ↦ [] | some t ↦ t ]

unfoldable pub set_value : ℕ → Value → Context → Context
set_value key v c = record { tags = some (insert key v (tags_of c)) }

unfoldable pub delete_key : Option ℕ → Context → Context
delete_key none c = c
delete_key (some key) c = elim c.tags [ none ↦ c | some t ↦ record { tags = some (delete key t) } ]

abbrev pub map_at : ℕ → State → Meta
map_at r s = elim (lookup r s.maps) [ none ↦ [] | some m ↦ m ]

the_state : {a b : State} → some a ≡ some b → a ≡ b
the_state {a} p = ap (λ o. elim o [ none ↦ a | some u ↦ u ]) p

the_text : {a b : Bytes} → some a ≡ some b → a ≡ b
the_text {a} p = ap (λ o. elim o [ none ↦ a | some u ↦ u ]) p

module _ (parent : ℕ → Option Value) where
  -- The value, and the context, whose nil map is replaced.
  unfoldable pub get_value : ℕ → Context → Option Value × Context
  get_value key c = (
    elim (lookup key (tags_of c)) [ none ↦ parent key | some v ↦ some v ],
    record { tags = some (tags_of c) },
  )

  -- `getReqMetaData`: the map, if there is one; `none` is the panic on a tag that is no map.
  unfoldable pub get_req_meta_data : Context → Option (Option ℕ)
  get_req_meta_data c = elim (lookup req_meta_data_key (tags_of c)) [
    | some (meta_map r) ↦ some (some r)
    | some (other _) ↦ none
    | none ↦ elim (parent req_meta_data_key) [
      | some (meta_map r) ↦ some (some r)
      | some (other _) ↦ some none
      | none ↦ some none
    ]
  ]

  -- A missing key reads as the empty string.
  unfoldable pub get_req_meta_data_by_key : Bytes → State → Option Bytes
  get_req_meta_data_by_key key s = elim (get_req_meta_data s.context) [
    | none ↦ none
    | some none ↦ some []
    | some (some r) ↦ some (elim (lookup key (map_at r s)) [ none ↦ [] | some v ↦ v ])
  ]

  unfoldable pub copy_req_meta_data : State → Option (Option Meta)
  copy_req_meta_data s = elim (get_req_meta_data s.context) [
    | none ↦ none
    | some none ↦ some none
    | some (some r) ↦ some (some (map_at r s))
  ]

  unfoldable pub set_req_meta_data : Bytes → Bytes → State → Option State
  set_req_meta_data key v s = elim (get_req_meta_data s.context) [
    | none ↦ none
    | some none ↦ some (record {
      context = set_value req_meta_data_key (meta_map s.next) s.context;
      maps = insert s.next (insert key v []) s.maps;
      next = suc s.next;
    })
    | some (some r) ↦ some (record s { maps = insert r (insert key v (map_at r s)) s.maps })
  ]

  -- What a state whose context has the map `r` reads.
  read_map :
      (s : State) (r : ℕ) (m : Meta) (k : Bytes)
      → get_req_meta_data s.context ≡ some (some r)
      → lookup r s.maps ≡ some m
      → get_req_meta_data_by_key k s ≡ some (elim (lookup k m) [ none ↦ [] | some v ↦ v ])
  unfolding get_req_meta_data_by_key lookup
  read_map s r m k e h = rw (e, h, get_req_meta_data_by_key) refl

  -- A missing key reads as the empty string.
  abbrev text : Bytes → Meta → Bytes
  text k m = elim (lookup k m) [ none ↦ [] | some v ↦ v ]

  text-insert :
      (key v k : Bytes) (m : Meta)
      → text k (insert key v m) ≡ (if bytes_eq key k then v else text k m)
  text-insert key v k m = ground (arith, lookup-insert key k v m)

  new_map :
      (c : Context) (n : ℕ)
      → get_req_meta_data (set_value req_meta_data_key (meta_map n) c) ≡ some (some n)
  unfolding get_req_meta_data set_value
  new_map c n =
      rw (lookup_inserted req_meta_data_key (meta_map n) (tags_of c), get_req_meta_data) refl

  -- A key of the metadata that is set reads as its value, and every other key as before, whether
  -- the metadata stands in the context, in its parent, or nowhere yet.
  pub set_get_metadata :
      (s t : State) (key v k old : Bytes)
      → set_req_meta_data key v s ≡ some t
      → get_req_meta_data_by_key k s ≡ some old
      → get_req_meta_data_by_key k t ≡ some (if bytes_eq key k then v else old)
  unfolding set_req_meta_data get_req_meta_data_by_key lookup
  set_get_metadata s t key v k old set get = elim (Option-cases (get_req_meta_data s.context)) [
    | inl strange ↦ absurd (let p = rw (strange, get_req_meta_data_by_key) at get in cc)
    | inr (g, there) ↦ elim (Option-cases g) [
      | inl missing ↦
          let e = there ∙ ap some missing in
          let u : State = record {
            context = set_value req_meta_data_key (meta_map s.next) s.context;
            maps = insert s.next (insert key v []) s.maps;
            next = suc s.next;
          } in
          let made = the_state (rw (e, set_req_meta_data) at set) in
          let empty = the_text (rw (e, get_req_meta_data_by_key) at get) in
          rw (← made, ← empty)
            (read_map u s.next (insert key v []) k (new_map s.context s.next)
                (lookup_inserted s.next (insert key v []) s.maps)
              ∙ ap some (text-insert key v k []))
      | inr (r, found) ↦
          let e = there ∙ ap some found in
          let u : State = record s { maps = insert r (insert key v (map_at r s)) s.maps } in
          let made = the_state (rw (e, set_req_meta_data) at set) in
          let read = the_text (rw (e, get_req_meta_data_by_key) at get) in
          rw (← made, ← read)
            (read_map u r (insert key v (map_at r s)) k e
                (lookup_inserted r (insert key v (map_at r s)) s.maps)
              ∙ ap some (text-insert key v k (map_at r s)))
    ]
  ]
