-- ===== src/Transaction/Tests.antt =====
-- Transactions on concrete connections.
use flowcoro.Base.{ℕ, zero, suc, ◌≡◌, ◌≢◌, arith, refl, true, Option, none, some, List, [], ◌∷◌}
use flowcoro.Transaction.{
  active, committed, failed, Request, begins, executes, commits, Answer, succeeds, declines,
  Options, Transaction, fresh, Event, starts, runs, ends, undoes, rollback, commit, run,
}
use flowcoro.Transaction.Protocol.{within, closed, out_of_order, phase, commit_last, run_in_order}
use flowcoro.Transaction.Endings.{failed_commit_not_undone}

abbrev plain : Options
plain = record { timeout = 100; auto_rollback_on_error = true; max_retries = 2 }

abbrev willing : List Request → Answer
willing _ = succeeds

-- A connection that takes no statement and no commit.
abbrev refusing : List Request → Answer
refusing (executes ∷ _) = declines
refusing (commits ∷ _) = declines
refusing _ = succeeds

abbrev started : Transaction
started = record { state = active; start_time = 5; sent = begins ∷ [] }

-- The commit is refused, and the client asks for a rollback.
abbrev refused_commit : List Event
refused_commit = starts 1 ∷ ends 3 ∷ undoes ∷ []

abbrev usual : List Event
usual = starts 1 ∷ runs 2 ∷ ends 3 ∷ ends 4 ∷ undoes ∷ runs 5 ∷ []

run_in_order_example :
    let t = run refusing plain (fresh 0) refused_commit in
    (phase refusing t.sent ≢ out_of_order)
    × (t.state ≡ active → phase refusing t.sent ≡ within)
    × (t.state ≡ committed
        → (refusing t.sent ≡ succeeds)
          × (commit_last t.sent ≡ true)
          × (phase refusing t.sent ≡ closed))
run_in_order_example = run_in_order refusing plain refused_commit 0

declines-ne-succeeds : refusing (commits ∷ begins ∷ []) ≢ succeeds
declines-ne-succeeds = λ e. cc

failed_commit_not_undone_example :
    let u = (commit refusing plain started 9).1 in
    ((commit refusing plain started 9).0 ≡ succeeds)
    × (u.state ≡ failed)
    × (u.sent ≡ commits ∷ begins ∷ [])
    × ((rollback refusing u).1.sent ≡ commits ∷ begins ∷ [])
failed_commit_not_undone_example =
    failed_commit_not_undone refusing plain started 9 refl (omega arith) declines-ne-succeeds

-- The first attempt gets no connection, the second one does.
abbrev second_time : ℕ → Option (List Request → Answer)
second_time zero = none
second_time (suc n) = some willing

abbrev never : ℕ → Option (List Request → Answer)
never _ = none

abbrev always : ℕ → Option (List Request → Answer)
always _ = some refusing

abbrev returns_seven : ℕ → Transaction → Option ℕ × Transaction
returns_seven n t = (some 7, t)

abbrev at_zero : ℕ → ℕ
at_zero _ = 0

as_given : (t : Transaction) → returns_seven 0 t ≡ (some 7, t)
as_given t = refl
