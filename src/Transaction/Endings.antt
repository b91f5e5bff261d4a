-- ===== src/Transaction/Endings.antt =====
-- What becomes of a transaction when the connection refuses a request.
use flowcoro.Base.{ℕ, ◌-◌, ◌≤◌, ◌≡◌, ◌≢◌, true, false, List, ◌∷◌, arith}
use flowcoro.Transaction.{
  active, failed, is_active, Request, executes, commits, rolls_back, Answer, succeeds, declines,
  Options, Transaction, rollback, commit_failed, commit, execute,
}

module _ (driver : List Request → Answer) (options : Options) where
  -- With rollback on errors, a statement that an active transaction's connection answers with a
  -- failed result is followed by the request to roll back, and the transaction is over.
  pub failed_execute_undone :
      (t : Transaction) (now : ℕ)
      → options.auto_rollback_on_error ≡ true
      → t.state ≡ active
      → (execute driver options t now).0 ≡ declines
      → let u = (execute driver options t now).1 in
        (u.sent ≡ rolls_back ∷ executes ∷ t.sent) × (is_active u.state ≡ false)
  unfolding execute rollback
  failed_execute_undone t now auto on h = ground arith

  -- When an active transaction's connection refuses a commit in time, with rollback on errors or
  -- without it, `commit` returns, the transaction has failed, and no rollback has been asked for,
  -- nor does a later `rollback` ask for one.
  pub failed_commit_not_undone :
      (t : Transaction) (now : ℕ)
      → t.state ≡ active
      → now - t.start_time ≤ options.timeout
      → driver (commits ∷ t.sent) ≢ succeeds
      → let u = (commit driver options t now).1 in
        ((commit driver options t now).0 ≡ succeeds)
        × (u.state ≡ failed)
        × (u.sent ≡ commits ∷ t.sent)
        × ((rollback driver u).1.sent ≡ commits ∷ t.sent)
  unfolding commit commit_failed rollback
  failed_commit_not_undone t now on in_time refused = ground arith
