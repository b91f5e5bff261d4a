-- ===== src/Transaction.antt =====
-- `Transaction` and `TransactionManager` of include/flowcoro/db/transaction_manager.h. The
-- connection is the driver's: it answers each request, and its answer may depend on all that it has
-- been asked before. Times are milliseconds.
pub mod Protocol
pub mod Endings
pub mod Retry
pub mod Batch
mod Tests
use flowcoro.Base.{
  ℕ, zero, suc, ◌+◌, ◌-◌, Bool, true, false, not, Option, none, some, List, [], ◌∷◌, ltb,
  if◌then◌else◌,
}

-- `TransactionState`
pub data TransactionState : Type 0 where
  not_started : TransactionState
  active : TransactionState
  committed : TransactionState
  rolled_back : TransactionState
  failed : TransactionState

abbrev pub is_active : TransactionState → Bool
is_active active = true
is_active _ = false

-- What is asked of the connection.
pub data Request : Type 0 where
  begins : Request
  executes : Request
  commits : Request
  rolls_back : Request

-- A result with `success` set, one without it, or an exception.
pub data Answer : Type 0 where
  succeeds : Answer
  declines : Answer
  throws : Answer

-- `TransactionOptions`, its fields that the code reads.
pub record Options : Type 0 where
  pub timeout : ℕ
  pub auto_rollback_on_error : Bool
  pub max_retries : ℕ

pub record Transaction : Type 0 where
  pub state : TransactionState
  pub start_time : ℕ
  pub sent : List Request  -- what the connection has been asked, the last request first

pub fresh : ℕ → Transaction
fresh now = record { state = not_started; start_time = now; sent = [] }

-- The driver sees the request and all before it.
abbrev pub asks : Transaction → Request → Transaction
asks t r = record t { sent = r ∷ t.sent }

module _ (driver : List Request → Answer) where
  -- `begin`. `now` is the time after the answer.
  pub begin : Transaction → ℕ → Answer × Transaction
  begin t now = elim t.state [
    | not_started ↦
        let u = asks t begins in
        elim (driver u.sent) [
          | throws ↦ (throws, record u { state = failed })
          | _ ↦ (succeeds, record u { state = active; start_time = now })
        ]
    | _ ↦ (throws, t)
  ]

  -- `rollback`: an exception of the driver becomes a failed result.
  pub rollback : Transaction → Answer × Transaction
  rollback t =
      if not (is_active t.state)
      then (declines, t)
      else let u = asks t rolls_back in
        elim (driver u.sent) [
          | succeeds ↦ (succeeds, record u { state = rolled_back })
          | declines ↦ (declines, record u { state = failed })
          | throws ↦ (declines, record u { state = failed })
        ]

  module _ (options : Options) where
    -- What follows a failed `commit`, with `auto_rollback`.
    pub commit_failed : Transaction → Answer × Transaction
    unfolding rollback
    commit_failed t =
        let u = record t { state = failed } in
        if options.auto_rollback_on_error then (succeeds, (rollback u).1) else (succeeds, u)

    -- `commit`, at the time `now`. It returns nothing, so `succeeds` only says that it returns.
    pub commit : Transaction → ℕ → Answer × Transaction
    unfolding commit_failed
    commit t now =
        if not (is_active t.state)
        then (succeeds, t)
        else if ltb options.timeout (now - t.start_time)
        then (throws, t)
        else let u = asks t commits in
          elim (driver u.sent) [
            | succeeds ↦ (succeeds, record u { state = committed })
            | _ ↦ commit_failed u
          ]

    -- Both forms of `execute`.
    pub execute : Transaction → ℕ → Answer × Transaction
    unfolding rollback
    execute t now =
        if not (is_active t.state)
        then (declines, t)
        else if ltb options.timeout (now - t.start_time)
        then (throws, t)
        else let u = asks t executes in
          elim (driver u.sent) [
            | succeeds ↦ (succeeds, u)
            | declines ↦
                if options.auto_rollback_on_error then (declines, (rollback u).1) else (declines, u)
            | throws ↦ (throws, u)
          ]

    -- `batch_execute`: the list has the time of each query. `succeeds` says that it returns.
    pub batch_execute : Transaction → List ℕ → Answer × Transaction
    unfolding execute
    batch_execute t [] = (succeeds, t)
    batch_execute t (now ∷ nows) =
        let (answer, u) = execute t now in
        let rest = batch_execute u nows in elim answer [ succeeds ↦ rest | _ ↦ (throws, u) ]

-- What a client calls.
pub data Event : Type 0 where
  starts : ℕ → Event
  runs : ℕ → Event
  ends : ℕ → Event
  undoes : Event

module _ (driver : List Request → Answer) (options : Options) where
  pub step : Transaction → Event → Transaction
  unfolding begin execute commit rollback
  step t (starts now) = (begin driver t now).1
  step t (runs now) = (execute driver options t now).1
  step t (ends now) = (commit driver options t now).1
  step t undoes = (rollback driver t).1

  pub run : Transaction → List Event → Transaction
  unfolding step
  run t [] = t
  run t (e ∷ es) = run (step t e) es

-- How `execute_transaction` ends: with the result of the client's function, or, after the last
-- retry, with a result made by default. The number is that of the attempts.
pub data Ending {ℓ} (B : Type ℓ) : Type ℓ where
  finished : B → ℕ → Ending B
  gave_up : ℕ → Ending B

module _ {ℓ} {B : Type ℓ} (options : Options)
    (work : ℕ → Transaction → Option B × Transaction) where
  -- The body of the `try` in attempt `n`: the driver is that of the connection that the pool gave,
  -- or nothing if `acquire_connection` threw, `begun` and `now` are the times at which `begin` has
  -- its answer and `commit` is called, and `work n` is the client's function, `none` if it throws.
  -- An exception in any of them ends the attempt.
  pub attempt : Option (List Request → Answer) → ℕ → ℕ → ℕ → Option B
  unfolding begin commit fresh
  attempt none begun now n = none
  attempt (some driver) begun now n =
      let (answer, t) = begin driver (fresh begun) begun in
      let (result, u) = work n t in
      elim answer [
        | throws ↦ none
        | _ ↦ elim result [
          | none ↦ none
          | some r ↦ elim ((commit driver options u now).0) [ throws ↦ none | _ ↦ some r ]
        ]
      ]

  -- The loop of `execute_transaction`, at attempt `n` with `left` retries to go.
  pub retry_from : (ℕ → Option (List Request → Answer)) → (ℕ → ℕ) → (ℕ → ℕ) → ℕ → ℕ → Ending B
  unfolding attempt
  retry_from drivers begun now zero n = elim (attempt (drivers n) (begun n) (now n) n) [
    | some r ↦ finished r (suc n)
    | none ↦ gave_up (suc n)
  ]
  retry_from drivers begun now (suc left) n =
      let later = retry_from drivers begun now left (suc n) in
      elim (attempt (drivers n) (begun n) (now n) n) [ some r ↦ finished r (suc n) | none ↦ later ]

  pub execute_transaction : (ℕ → Option (List Request → Answer)) → (ℕ → ℕ) → (ℕ → ℕ) → Ending B
  unfolding retry_from
  execute_transaction drivers begun now = retry_from drivers begun now options.max_retries 0
