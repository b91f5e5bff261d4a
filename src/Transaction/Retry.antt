-- ===== src/Transaction/Retry.antt =====
-- The attempts of `execute_transaction`.
use mathlib.Core.Path.{subst}
use native.Mathlib.Decide.{ℕ_discrete}
use flowcoro.Base.{
  ℕ, zero, suc, ◌+◌, ◌-◌, ◌≤◌, ◌<◌, ◌≡◌, inl, inr, refl, Option, none, some, Option-cases, ap, ◌∙◌,
  List, [], ◌∷◌, arith,
}
use flowcoro.Transaction.{
  active, Request, begins, commits, Answer, succeeds, declines, Options, Transaction, Ending,
  finished, gave_up, attempt, retry_from, execute_transaction,
}

module _ {B : Type 0} (options : Options) (work : ℕ → Transaction → Option B × Transaction)
    (drivers : ℕ → Option (List Request → Answer)) (begun now : ℕ → ℕ) where
  -- Attempt `n` of this call.
  abbrev pub tried : ℕ → Option B
  tried n = attempt options work (drivers n) (begun n) (now n) n

  -- What an ending of the loop says of the attempts from `n` on, with `left` retries to go.
  abbrev Explained : ℕ → ℕ → Ending B → Type 0
  Explained left n (finished r count) =
      (n < count)
      × (count ≤ suc (n + left))
      × (tried (count - 1) ≡ some r)
      × ((j : ℕ) → n ≤ j → suc j < count → tried j ≡ none)
  Explained left n (gave_up count) =
      (count ≡ suc (n + left)) × ((j : ℕ) → n ≤ j → j < count → tried j ≡ none)

  same_attempt : (n j : ℕ) (o : Option B) → j ≡ n → tried n ≡ o → tried j ≡ o
  same_attempt n j o e h = ap tried e ∙ h

  first_none :
      (n bound : ℕ)
      → tried n ≡ none
      → ((j : ℕ) → suc n ≤ j → j < bound → tried j ≡ none)
      → (j : ℕ) → n ≤ j
      → j < bound
      → tried j ≡ none
  first_none n bound e later j from to = elim (ℕ_discrete j n) [
    | yes same ↦ same_attempt n j none same e
    | no other ↦ later j (omega arith) to
  ]

  one_more :
      (left n : ℕ) (x : Ending B)
      → tried n ≡ none
      → Explained left (suc n) x
      → Explained (suc left) n x
  one_more left n (finished r count) e (low, high, last, earlier) = (
    omega arith,
    omega arith,
    last,
    λ j from to.
        first_none n (count - 1) e (λ i above below. earlier i above (omega arith)) j from
          (omega arith),
  )
  one_more left n (gave_up count) e (all, earlier) =
      (omega arith, λ j from to. first_none n count e earlier j from to)

  at_once : (left n : ℕ) (r : B) → tried n ≡ some r → Explained left n (finished r (suc n))
  at_once left n r e = (
    omega arith,
    omega arith,
    same_attempt n (suc n - 1) (some r) (omega arith) e,
    λ j from to. absurd (omega arith),
  )

  last_none : (n : ℕ) → tried n ≡ none → Explained 0 n (gave_up (suc n))
  last_none n e = (omega arith, λ j from to. same_attempt n j none (omega arith) e)

  retry_first :
      (left n : ℕ) (r : B)
      → tried n ≡ some r
      → retry_from options work drivers begun now left n ≡ finished r (suc n)
  unfolding retry_from
  retry_first zero n r e = rw (e, retry_from) refl
  retry_first (suc left) n r e = rw (e, retry_from) refl

  retry_last :
      (n : ℕ) → tried n ≡ none → retry_from options work drivers begun now 0 n ≡ gave_up (suc n)
  unfolding retry_from
  retry_last n e = rw (e, retry_from) refl

  retry_next :
      (left n : ℕ)
      → tried n ≡ none
      → retry_from options work drivers begun now (suc left) n
        ≡ retry_from options work drivers begun now left (suc n)
  unfolding retry_from
  retry_next left n e = rw (e, retry_from) refl

  retry_from-Explained :
      (left n : ℕ) → Explained left n (retry_from options work drivers begun now left n)
  retry_from-Explained zero n = elim (Option-cases (tried n)) [
    | inl e ↦ rw (retry_last n e) (last_none n e)
    | inr (r, e) ↦ rw (retry_first 0 n r e) (at_once 0 n r e)
  ]
  retry_from-Explained (suc left) n = elim (Option-cases (tried n)) [
    | inl e ↦ rw (retry_next left n e) (
        one_more left n (retry_from options work drivers begun now left (suc n)) e
          (retry_from-Explained left (suc n)))
    | inr (r, e) ↦ rw (retry_first (suc left) n r e) (at_once (suc left) n r e)
  ]

  whole_call :
      (x : Ending B)
      → execute_transaction options work drivers begun now ≡ x
      → Explained options.max_retries 0 x
  unfolding execute_transaction
  whole_call x e =
      subst (Explained options.max_retries 0) e (retry_from-Explained options.max_retries 0)

  -- If `execute_transaction` returns a result after some attempts, it made at least one and at
  -- most `max_retries + 1`, and the result is that of the last attempt.
  pub finished_by_last_attempt :
      (r : B) (count : ℕ)
      → execute_transaction options work drivers begun now ≡ finished r count
      → (0 < count) × (count ≤ suc options.max_retries) × (tried (count - 1) ≡ some r)
  finished_by_last_attempt r count e =
      let (low, high, last, _) = whole_call (finished r count) e in (low, omega arith, last)

  -- If `execute_transaction` returns a result after some attempts, every attempt before the last
  -- one failed.
  pub earlier_attempts_failed :
      (r : B) (count j : ℕ)
      → execute_transaction options work drivers begun now ≡ finished r count
      → suc j < count
      → tried j ≡ none
  earlier_attempts_failed r count j e to =
      let (_, _, _, earlier) = whole_call (finished r count) e in earlier j (omega arith) to

  -- If `execute_transaction` gives up, it has made `max_retries + 1` attempts, and each of them
  -- failed.
  pub gave_up_after_all :
      (count j : ℕ)
      → execute_transaction options work drivers begun now ≡ gave_up count
      → j ≤ options.max_retries
      → (count ≡ suc options.max_retries) × (tried j ≡ none)
  gave_up_after_all count j e to =
      let (all, earlier) = whole_call (gave_up count) e in
      (omega arith, earlier j (omega arith) (omega arith))

  -- When the first attempt's connection begins the transaction and declines its commit in time,
  -- `execute_transaction` returns the result of a function that leaves the transaction alone,
  -- after one attempt, as if it were committed.
  pub refused_commit_finishes :
      (driver : List Request → Answer) (r : B)
      → drivers 0 ≡ some driver
      → driver (begins ∷ []) ≡ succeeds
      → driver (commits ∷ begins ∷ []) ≡ declines
      → ((t : Transaction) → work 0 t ≡ (some r, t))
      → now 0 - begun 0 ≤ options.timeout
      → execute_transaction options work drivers begun now ≡ finished r 1
  unfolding execute_transaction
  refused_commit_finishes driver r given begun_ok refused works in_time =
      retry_first options.max_retries 0 r (rw given succeeded)
    where
      started : Transaction
      started = record { state = active; start_time = begun 0; sent = begins ∷ [] }

      succeeded : attempt options work (some driver) (begun 0) (now 0) 0 ≡ some r
      succeeded = ground (arith, works started)
