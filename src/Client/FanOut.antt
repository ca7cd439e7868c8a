-- ===== src/Client/FanOut.antt =====
-- `Broadcast`, `Fork` and `Inform` of client/xclient.go behind the selection of the clients: a
-- goroutine for each client and the loop that waits for their reports, in every order in which their
-- sections may follow one another. A reply is named by the key of the client that gave it.
pub mod Gather
pub mod Counts
pub mod Reports
pub mod Broadcast
pub mod Fork
pub mod Progress
mod Tests
use rpcx.Base.{
  ℕ, zero, suc, ◌-◌, ◌≡◌, List, [], ◌∷◌, ◌++◌, Option, none, some, Bytes, Bool, true, false, ◌==◌,
  ◌||◌, not, if◌then◌else◌, length, map,
}
use rpcx.Client.Cache.{cut_at_byte}
use rpcx.Client.FailModes.{Error, other, XClient, wrap_call, remove_uncovered}

pub data Kind : Type 0 where
  broadcast fork inform : Kind

-- A goroutine, by the last thing that it did, with the error of its call: the call, the report
-- `done <- (e == nil)`, the section that adds the error or sets the reply, the receipt.
pub data Phase : Type 0 where
  calling : Phase
  returned reported recorded settled : Option Error → Phase

-- A goroutine with its key and its client.
abbrev pub Task : Type 0
Task = Bytes × ℕ × Phase

abbrev pub timeout : Error
timeout = other 3

-- The goroutines, the channel `done`, the variable `l`, `err.Errors`, whether the caller gave a
-- reply that is not nil, `*reply` where it is set, the addresses of `receipts`, and the errors and receipts with which the function returned.
pub record Fan (W : Type 0) : Type 0 where
  pub tasks : List Task
  pub done : List Bool
  pub left : ℕ
  pub errors : List Error
  pub wants_reply : Bool
  pub reply : Option Bytes
  pub receipts : List Bytes
  pub outcome : Option (List Error × List Bytes)
  pub world : W

abbrev pub is_nil : Option Error → Bool
is_nil none = true
is_nil (some e) = false

-- `replyOnce.Do`
unfoldable pub set_once : Bytes → Option Error → Option Bytes → Option Bytes
set_once k none none = some k
set_once k none (some j) = some j
set_once k (some e) r = r

-- `addr`, behind the network.
unfoldable pub receipt_address : Bytes → Bytes
receipt_address k = elim (cut_at_byte 64 k) [ none ↦ k | some (network, addr) ↦ addr ]

-- Fork sets the reply before it reports, the others behind it.
unfoldable pub reply_at_return : Kind → Bool → Bytes → Option Error → Option Bytes → Option Bytes
reply_at_return fork wants k r reply = if wants then set_once k r reply else reply
reply_at_return broadcast wants k r reply = reply
reply_at_return inform wants k r reply = reply

unfoldable pub reply_at_record : Kind → Bool → Bytes → Option Error → Option Bytes → Option Bytes
reply_at_record fork wants k r reply = reply
reply_at_record broadcast wants k r reply = if wants then set_once k r reply else reply
reply_at_record inform wants k r reply = if wants then set_once k r reply else reply

unfoldable pub receipts_at_settle : Kind → Bytes → List Bytes → List Bytes
receipts_at_settle inform k rs = rs ++ receipt_address k ∷ []
receipts_at_settle broadcast k rs = rs
receipts_at_settle fork k rs = rs

-- What the loop does with a report, `l` being lowered before.
unfoldable pub verdict :
    Kind → Bool → ℕ → List Error → List Bytes → Option (List Error × List Bytes)
verdict broadcast b l errs rs = if l == 0 || not b then some (errs, rs) else none
verdict fork b l errs rs = if b then some ([], rs) else if l == 0 then some (errs, rs) else none
verdict inform b l errs rs = if l == 0 then some (errs, rs) else none

module _ {W : Type 0} where
  -- The loop takes a report `b` from the channel, which holds `rest` behind it.
  unfoldable pub receive : Kind → Bool → List Bool → Fan W → Fan W
  receive kind b rest s =
      let l = s.left - 1 in
      record s { done = rest; left = l; outcome = verdict kind b l s.errors s.receipts }

  -- The timer of a minute fires.
  unfoldable pub time_out : Fan W → Fan W
  time_out s =
      let errs = s.errors ++ timeout ∷ [] in
      record s { errors = errs; outcome = some (errs, s.receipts) }

  unfoldable pub launch : Bool → List (Bytes × ℕ) → W → Fan W
  launch wants clients w = record {
    tasks = map (λ (t : Bytes × ℕ). (t.0, t.1, calling)) clients;
    done = [];
    left = length clients;
    errors = [];
    wants_reply = wants;
    reply = none;
    receipts = [];
    outcome = none;
    world = w;
  }

module _ {W : Type 0} (x : XClient W) (kind : Kind) where
  -- The sections of a goroutine; `ts` are the goroutines with this one in its new phase.
  unfoldable pub call_returns : Bytes → ℕ → (Option Error → List Task) → Fan W → Fan W
  call_returns k c ts s =
      let (w, r) = wrap_call x (some c) s.world in
      record s { tasks = ts r; reply = reply_at_return kind s.wants_reply k r s.reply; world = w }

  unfoldable pub report : Option Error → List Task → Fan W → Fan W
  report r ts s = record s { tasks = ts; done = s.done ++ is_nil r ∷ [] }

  unfoldable pub record_result : Bytes → ℕ → Option Error → List Task → Fan W → Fan W
  record_result k c none ts s = record s {
    tasks = ts;
    reply = reply_at_record kind s.wants_reply k none s.reply;
  }
  record_result k c (some e) ts s = record s {
    tasks = ts;
    errors = s.errors ++ e ∷ [];
    world = remove_uncovered x k (some c) (some e) s.world;
  }

  unfoldable pub settle : Bytes → List Task → Fan W → Fan W
  settle k ts s = record s { tasks = ts; receipts = receipts_at_settle kind k s.receipts }

  -- One section of a goroutine or of the loop; the loop ends when it returns.
  pub data Step : Fan W → Fan W → Type 0 where
    returns :
        {s : Fan W} (us vs : List Task) (k : Bytes) (c : ℕ)
        → s.tasks ≡ us ++ (k, c, calling) ∷ vs
        → Step s (call_returns k c (λ r. us ++ (k, c, returned r) ∷ vs) s)
    reports :
        {s : Fan W} (us vs : List Task) (k : Bytes) (c : ℕ) (r : Option Error)
        → s.tasks ≡ us ++ (k, c, returned r) ∷ vs
        → Step s (report r (us ++ (k, c, reported r) ∷ vs) s)
    records :
        {s : Fan W} (us vs : List Task) (k : Bytes) (c : ℕ) (r : Option Error)
        → s.tasks ≡ us ++ (k, c, reported r) ∷ vs
        → Step s (record_result k c r (us ++ (k, c, recorded r) ∷ vs) s)
    settles :
        {s : Fan W} (us vs : List Task) (k : Bytes) (c : ℕ) (r : Option Error)
        → s.tasks ≡ us ++ (k, c, recorded r) ∷ vs
        → Step s (settle k (us ++ (k, c, settled r) ∷ vs) s)
    receives :
        {s : Fan W} (b : Bool) (rest : List Bool)
        → s.outcome ≡ none
        → s.done ≡ b ∷ rest
        → Step s (receive kind b rest s)
    times_out : {s : Fan W} → s.outcome ≡ none → Step s (time_out s)

  pub data Run (s : Fan W) : Fan W → Type 0 where
    here : Run s s
    next : {t u : Fan W} → Run s t → Step t u → Run s u
