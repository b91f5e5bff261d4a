-- ===== src/Transaction/Batch.antt =====
-- What a batch of statements has done when it returns.
use flowcoro.Base.{ℕ, ◌≡◌, refl, sym, ap, ◌∙◌, List, [], ◌∷◌, arith}
use flowcoro.Transaction.{
  active, Request, executes, Answer, succeeds, Options, Transaction, execute, batch_execute,
}

-- One more `executes` for each time.
abbrev pub executed : List ℕ → List Request → List Request
executed [] sent = sent
executed (now ∷ nows) sent = executed nows (executes ∷ sent)

module _ (driver : List Request → Answer) (options : Options) where
  record Went (t u : Transaction) : Type 0 where
    still : u.state ≡ active
    asked : u.sent ≡ executes ∷ t.sent

  execute-Went :
      (t : Transaction) (now : ℕ)
      → (execute driver options t now).0 ≡ succeeds
      → Went t (execute driver options t now).1
  unfolding execute
  execute-Went t now h = ground arith

  first_succeeds :
      (t : Transaction) (now : ℕ) (nows : List ℕ)
      → (batch_execute driver options t (now ∷ nows)).0 ≡ succeeds
      → (execute driver options t now).0 ≡ succeeds
  unfolding batch_execute
  first_succeeds t now nows h = ground arith

  rest_of_batch :
      (t : Transaction) (now : ℕ) (nows : List ℕ)
      → (execute driver options t now).0 ≡ succeeds
      → batch_execute driver options t (now ∷ nows)
        ≡ batch_execute driver options (execute driver options t now).1 nows
  unfolding batch_execute
  rest_of_batch t now nows e = rw (e, batch_execute) refl

  -- If `batch_execute` returns on an active transaction, the connection has been asked to execute
  -- once for each query and for nothing else, and the transaction is still active.
  pub batch_is_whole :
      (t : Transaction) (nows : List ℕ)
      → t.state ≡ active
      → (batch_execute driver options t nows).0 ≡ succeeds
      → let u = (batch_execute driver options t nows).1 in
        (u.state ≡ active) × (u.sent ≡ executed nows t.sent)
  unfolding batch_execute
  batch_is_whole t [] on h = (on, refl)
  batch_is_whole t (now ∷ nows) on h =
      let first = first_succeeds t now nows h in
      let same = rest_of_batch t now nows first in
      let went = execute-Went t now first in
      let (on', sent) =
        batch_is_whole (execute driver options t now).1 nows went.still
          (sym (ap (λ r. r.0) same) ∙ h) in
      (
        ap (λ r. r.1.state) same ∙ on',
        ap (λ r. r.1.sent) same ∙ sent ∙ ap (executed nows) went.asked,
      )
