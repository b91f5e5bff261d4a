-- ===== src/Transaction/Protocol.antt =====
-- The order in which a transaction asks its connection.
use flowcoro.Base.{ℕ, ◌≡◌, ◌≢◌, Bool, true, false, List, [], ◌∷◌, arith}
use flowcoro.Transaction.{
  not_started, active, committed, Request, begins, executes, commits, rolls_back, Answer, succeeds,
  declines, throws, Options, Transaction, fresh, begin, rollback, commit_failed, commit, execute,
  Event, starts, runs, ends, undoes, step, run,
}

-- How far the connection has been taken by what it was asked, the last request first, and by its
-- answers: one `begins`; any number of `executes` while the transaction is open; a commit that is
-- accepted closes it, as a rollback does; after a commit that is refused a rollback may come; and
-- nothing comes after the transaction is closed.
pub data Phase : Type 0 where
  before : Phase
  within : Phase
  refused : Phase
  closed : Phase
  out_of_order : Phase

abbrev next : Answer → Phase → Request → Phase
next _ before begins = within
next _ within executes = within
next succeeds within commits = closed
next declines within commits = refused
next throws within commits = refused
next _ within rolls_back = closed
next _ refused rolls_back = closed
next _ _ _ = out_of_order

abbrev pub phase : (List Request → Answer) → List Request → Phase
phase driver [] = before
phase driver (r ∷ rs) = next (driver (r ∷ rs)) (phase driver rs) r

abbrev pub commit_last : List Request → Bool
commit_last (commits ∷ _) = true
commit_last _ = false

-- What the state says of the connection, and what it says of its answers.
record IsTrue (driver : List Request → Answer) (t : Transaction) : Type 0 where
  unasked : t.state ≡ not_started → t.sent ≡ []
  open_now : t.state ≡ active → phase driver t.sent ≡ within
  in_order : phase driver t.sent ≢ out_of_order
  agreed :
      t.state ≡ committed
      → (driver t.sent ≡ succeeds) × (commit_last t.sent ≡ true) × (phase driver t.sent ≡ closed)

module _ (driver : List Request → Answer) (options : Options) where
  begin-IsTrue :
      (t : Transaction) (now : ℕ) → IsTrue driver t → IsTrue driver (begin driver t now).1
  unfolding begin
  begin-IsTrue t now v = ground arith

  rollback-IsTrue : (t : Transaction) → IsTrue driver t → IsTrue driver (rollback driver t).1
  unfolding rollback
  rollback-IsTrue t v = ground arith

  commit-IsTrue :
      (t : Transaction) (now : ℕ) → IsTrue driver t → IsTrue driver (commit driver options t now).1
  unfolding commit commit_failed rollback
  commit-IsTrue t now v = ground arith

  execute-IsTrue :
      (t : Transaction) (now : ℕ) → IsTrue driver t → IsTrue driver (execute driver options t now).1
  unfolding execute rollback
  execute-IsTrue t now v = ground arith

  step-IsTrue :
      (t : Transaction) (e : Event) → IsTrue driver t → IsTrue driver (step driver options t e)
  unfolding step
  step-IsTrue t (starts now) v = begin-IsTrue t now v
  step-IsTrue t (runs now) v = execute-IsTrue t now v
  step-IsTrue t (ends now) v = commit-IsTrue t now v
  step-IsTrue t undoes v = rollback-IsTrue t v

  run-IsTrue :
      (t : Transaction) (es : List Event)
      → IsTrue driver t
      → IsTrue driver (run driver options t es)
  unfolding run
  run-IsTrue t [] v = v
  run-IsTrue t (e ∷ es) v = run-IsTrue (step driver options t e) es (step-IsTrue t e v)

  fresh-IsTrue : (now : ℕ) → IsTrue driver (fresh now)
  unfolding fresh
  fresh-IsTrue now = ground arith

  -- Whatever is called on a new transaction, in any order and with any answers, the connection is
  -- asked to begin once, then to execute, then to commit or to roll back; after an accepted
  -- commit or a rollback it is asked for nothing, and after a refused commit for nothing but a
  -- rollback, if that. While the transaction is active none of the last two was asked for, and if
  -- it is committed the last request was a commit, which the connection accepted.
  pub run_in_order :
      (es : List Event) (now : ℕ)
      → let t = run driver options (fresh now) es in
        (phase driver t.sent ≢ out_of_order)
        × (t.state ≡ active → phase driver t.sent ≡ within)
        × (t.state ≡ committed
            → (driver t.sent ≡ succeeds)
              × (commit_last t.sent ≡ true)
              × (phase driver t.sent ≡ closed))
  run_in_order es now =
      let v = run-IsTrue (fresh now) es (fresh-IsTrue now) in (v.in_order, v.open_now, v.agreed)
