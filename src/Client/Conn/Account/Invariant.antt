-- ===== src/Client/Conn/Account/Invariant.antt =====
-- The invariant of a connection, and the account of a call: how often it is done, and how often it
-- waits.
use rpcx.Base.{
  ℕ, ◌+◌, ◌≤◌, ◌≡◌, refl, arith, inl, inr, some, false, ◌==◌, if◌then◌else◌, Option-cases,
}
use rpcx.Base.Dict.{lookup, delete, Distinct, nat_eq}
use rpcx.Client.Conn.{Client, CallError, set_error, call_done, take_pending}
use rpcx.Client.Conn.Events.{held}
use rpcx.Client.Conn.Account.Table.{
  Below, delete-Below, delete_absent, held-delete, delete-Distinct,
}

-- The table is well formed, `seq` has not wrapped round, and no call is raw.
pub record Inv (bound : ℕ) (c : Client) : Type 0 where
  pub distinct : Distinct c.pending
  pub below : Below c.seq c.pending
  pub in_range : c.seq ≤ bound
  pub no_raw : (id : ℕ) → c.raw id ≡ false

abbrev pub account : ℕ → Client → ℕ
account j c = c.done j + held j c.pending

-- `d` is `c` with one more `done()` of `id`, and perhaps an error or a result of it.
pub record Finishes (id : ℕ) (c d : Client) : Type 0 where
  pub done_once : (j : ℕ) → d.done j ≡ (if j == id then 1 else 0) + c.done j
  pub same_pending : d.pending ≡ c.pending
  pub same_seq : d.seq ≡ c.seq
  pub same_raw : d.raw ≡ c.raw

pub call_done-Finishes : (id : ℕ) (c : Client) → Finishes id c (call_done id c)
unfolding call_done
call_done-Finishes id c = record {
  done_once = λ j. ground arith;
  same_pending = refl;
  same_seq = refl;
  same_raw = refl;
}

pub error_done-Finishes :
    (id : ℕ) (e : CallError) (c : Client) → Finishes id c (call_done id (set_error id e c))
unfolding call_done set_error
error_done-Finishes id e c = record {
  done_once = λ j. ground arith;
  same_pending = refl;
  same_seq = refl;
  same_raw = refl;
}

-- A client with fewer entries in its table.
pub Inv-delete :
    (b n : ℕ) (c : Client) → Inv b c → Inv b (record c { pending = delete n c.pending })
Inv-delete b n c v = record {
  distinct = delete-Distinct n c.pending v.distinct;
  below = delete-Below c.seq n c.pending v.below;
  in_range = v.in_range;
  no_raw = v.no_raw;
}

pub Inv-Finishes : (b id : ℕ) (c d : Client) → Finishes id c d → Inv b c → Inv b d
Inv-Finishes b id c d f v = record {
  distinct = rw f.same_pending v.distinct;
  below = rw (f.same_pending, f.same_seq) v.below;
  in_range = rw f.same_seq v.in_range;
  no_raw = rw f.same_raw v.no_raw;
}

-- An entry that is taken out and done leaves the account as it was.
pub taken_account :
    (b j n id : ℕ) (c d : Client)
    → Inv b c
    → lookup n c.pending ≡ some id
    → Finishes id (record c { pending = delete n c.pending }) d
    → account j d ≡ account j c
taken_account b j n id c d v e f =
    rw f.same_pending (omega (arith, f.done_once j, held-delete j n id c.pending v.distinct e))

-- What a section that keeps the account proves.
abbrev pub Keeps : ℕ → Client → Client → Type 0
Keeps b c d = Inv b d × ((j : ℕ) → account j d ≡ account j c)

pub take_pending-Keeps :
    (b n : ℕ) (f : ℕ → Client → Client) (c : Client)
    → ((id : ℕ) (x : Client) → Finishes id x (f id x))
    → Inv b c
    → Keeps b c (take_pending n f c)
unfolding take_pending
take_pending-Keeps b n f c fin v = elim (Option-cases (lookup n c.pending)) [
  | inl e ↦ rw (e, take_pending) (Inv-delete b n c v, λ j. rw (delete_absent n c.pending e) refl)
  | inr (id, e) ↦
      rw (e, take_pending)
        (
          Inv-Finishes b id _ _ (fin id _) (Inv-delete b n c v),
          λ j. taken_account b j n id c _ v e (fin id _),
        )
]
