-- ===== src/Hazard/Drain.antt =====
-- `drain_current_thread`, run without a step of another thread.
use flowcoro.Base.{
  ℕ, zero, suc, ◌+◌, ◌*◌, ◌≡◌, ◌≤◌, ◌<◌, refl, ◌∙◌, inl, inr, Bool, true, false, ◌&&◌, ◌||◌, min,
  List, [], ◌∷◌, ◌==◌, has, lt→ltb, le→ltb_false, if◌then◌else◌, update, arith, Bool-cases,
}
use native.Mathlib.Nat.{mod-eq_of_lt}
use flowcoro.Hazard.{
  slots_per_thread, max_threads, is_nil, drain_current_thread, begin_call, atomic_step, Event,
  begins, runs, step, run, Client, is_idle, counts, scans, releases, State, goes, kept, reclaimed,
  scan_step,
}
use flowcoro.Hazard.Lists.{has-kept}

-- The next `m` operations are those of thread `c`.
abbrev pub alone : ℕ → ℕ → List Event
alone c zero = []
alone c (suc m) = runs c false ∷ alone c m

-- Whether one of `j` slots from the `k`-th on has `a`.
abbrev pub held : (ℕ → ℕ) → ℕ → ℕ → ℕ → Bool
held hazard k zero a = false
held hazard k (suc j) a = (hazard k == a) || held hazard (suc k) j a

run_one :
    (s : State) (c : ℕ) (es : List Event) (k : Client)
    → c < s.registered
    → s.registered ≤ max_threads
    → s.thread c ≡ k
    → run s (runs c false ∷ es) ≡ run (atomic_step s c c false k) es
unfolding run step
run_one s c es k there few at =
    rw
      (
        lt→ltb c s.registered there,
        mod-eq_of_lt {n = c} {m = max_threads} (omega (arith, there, few)),
        at,
      )
      refl

run_idle :
    (s : State) (c m : ℕ)
    → c < s.registered
    → s.registered ≤ max_threads
    → s.thread c ≡ is_idle
    → run s (alone c m) ≡ s
unfolding run atomic_step
run_idle s c zero there few at = refl
run_idle s c (suc m) there few at =
    run_one s c (alone c m) is_idle there few at ∙ run_idle s c m there few at

release_alone :
    (s : State) (c : ℕ)
    → c < s.registered
    → s.registered ≤ max_threads
    → s.thread c ≡ releases 0
    → run s (alone c 1) ≡ goes s c is_idle
unfolding run atomic_step
release_alone s c there few at = run_one s c [] (releases 0) there few at

-- What the thread has done when it is idle again.
record Drained (s r : State) (c : ℕ) (found : ℕ → Bool) : Type 0 where
  pub at_rest : r.thread c ≡ is_idle
  pub left : (a : ℕ) → (a == 0) ≡ false → has a (r.retired c) ≡ has a (s.retired c) && found a

scan_alone :
    (j : ℕ) (s : State) (c n k : ℕ) (found : List ℕ)
    → c < s.registered
    → s.registered ≤ max_threads
    → s.thread c ≡ scans 0 n k found
    → j + k ≡ slots_per_thread * min n max_threads
    → Drained s (run s (alone c (suc (suc j)))) c (λ a. has a found || held s.hazard k j a)
unfolding scan_step atomic_step
scan_alone zero s c n k found there few at end =
    let over = le→ltb_false k (slots_per_thread * min n max_threads) (omega (arith, end)) in
    rw (run_one s c (alone c 1) (scans 0 n k found) there few at, atomic_step, scan_step, over)
      (rw
        (release_alone
          (goes
            (record s {
              retired = update s.retired c (kept found (s.retired c));
              status = reclaimed s.status (s.retired c) found;
            })
            c (releases 0))
          c there few (ground arith))
        (record {
          at_rest = ground arith;
          left = λ a z. ground (arith, has-kept a found (s.retired c));
        }))
scan_alone (suc j) s c n k found there few at end =
    let more = lt→ltb k (slots_per_thread * min n max_threads) (omega (arith, end)) in
    let found' = if s.hazard k == 0 then found else s.hazard k ∷ found in
    let later =
      scan_alone j (goes s c (scans 0 n (suc k) found')) c n (suc k) found' there few (ground arith)
        (omega (arith, end)) in
    rw
      (
        run_one s c (alone c (suc (suc j))) (scans 0 n k found) there few at,
        atomic_step,
        scan_step,
        more,
      )
      (record { at_rest = later.at_rest; left = λ a z. ground (arith, later.left a z, z) })

has-is_nil : (a : ℕ) (xs : List ℕ) → is_nil xs ≡ true → has a xs ≡ false
has-is_nil a [] e = refl
has-is_nil a (x ∷ xs) e = absurd (cc)

drain_alone :
    (s : State) (c m : ℕ)
    → c < s.registered
    → s.registered ≤ max_threads
    → s.thread c ≡ counts 0
    → m ≡ slots_per_thread * min s.registered max_threads
    → Drained s (run s (alone c (suc (suc (suc m))))) c (held s.hazard 0 m)
unfolding atomic_step
drain_alone s c m there few at e = elim (Bool-cases (is_nil (s.retired c))) [
  | inl none ↦
      rw
        (
          run_one s c (alone c (suc (suc m))) (counts 0) there few at,
          atomic_step,
          none,
          run_one (goes s c (releases 0)) c (alone c (suc m)) (releases 0) there few (ground arith),
          run_idle (goes (goes s c (releases 0)) c is_idle) c (suc m) there few (ground arith),
        )
        (record { at_rest = ground arith; left = λ a z. rw (has-is_nil a (s.retired c) none) refl })
  | inr some_left ↦
      let later =
        scan_alone m (goes s c (scans 0 s.registered 0 [])) c s.registered 0 [] there few
          (ground arith) (omega (arith, e)) in
      rw (run_one s c (alone c (suc (suc m))) (counts 0) there few at, atomic_step, some_left)
        (record { at_rest = later.at_rest; left = later.left })
]

-- If an idle thread among at most 128 calls `drain_current_thread` and no other thread runs, it
-- is idle again after three steps more than there are slots of registered threads, and has left
-- of its retired nodes just those that a slot holds.
pub drain_gives_back :
    (s : State) (c : ℕ)
    → c < s.registered
    → s.registered ≤ max_threads
    → s.thread c ≡ is_idle
    → let m = slots_per_thread * min s.registered max_threads in
      let r = run s (begins c drain_current_thread ∷ alone c (suc (suc (suc m)))) in
      (r.thread c ≡ is_idle)
      × ((a : ℕ)
          → (a == 0) ≡ false
          → has a (r.retired c) ≡ has a (s.retired c) && held s.hazard 0 m a)
unfolding run step begin_call
drain_gives_back s c there few at =
    let drained =
      drain_alone (goes s c (counts 0)) c (slots_per_thread * min s.registered max_threads) there
        few (ground arith) refl in
    rw (run, step, lt→ltb c s.registered there, at, begin_call) (drained.at_rest, drained.left)
