-- ===== src/Ring/Window.antt =====
-- The items that a ring of `n` cells holds, read round its end from a position on.
use native.Mathlib.Nat.{add-zero, mod-add-mod, mod-eq_of_lt, mod-eq-sub-mod}
use native.Mathlib.Decide.{dec_lt}
use mathlib.Core.Path.{ap₂}
use flowcoro.Base.{
  ℕ, zero, suc, ◌+◌, ◌-◌, ◌%◌, ◌≤◌, ◌<◌, ◌≡◌, refl, sym, ap, ◌∙◌, ◌≢◌, List, [], ◌∷◌, ◌++◌, arith,
  length, get_or, set, length-set, get_or-set_self, get_or-set_ne, append_assoc, append-nil, take,
  drop,
}

module _ {ℓ} {A : Type ℓ} (d : A) (n : ℕ) where
  unfoldable pub window : List A → ℕ → ℕ → List A
  window cells pos zero = []
  window cells pos (suc count) = get_or cells (pos % n) d ∷ window cells (pos + 1) count

  -- The cells after a run of writes from a position on.
  unfoldable pub write_run : List A → ℕ → List A → List A
  write_run cells pos [] = cells
  write_run cells pos (x ∷ xs) = write_run (set cells (pos % n) x) (pos + 1) xs

  pub length-window : (cells : List A) (pos count : ℕ) → length (window cells pos count) ≡ count
  unfolding window
  length-window cells pos zero = refl
  length-window cells pos (suc count) = ap suc (length-window cells (pos + 1) count)

  next_mod : (p q : ℕ) → p % n ≡ q % n → (p + 1) % n ≡ (q + 1) % n
  next_mod p q e = sym (mod-add-mod p n 1) ∙ ap (λ i. (i + 1) % n) e ∙ mod-add-mod q n 1

  -- Only the position modulo `n` counts.
  pub window-mod :
      (cells : List A) (p q count : ℕ) → p % n ≡ q % n → window cells p count ≡ window cells q count
  unfolding window
  window-mod cells p q zero e = refl
  window-mod cells p q (suc count) e =
      ap₂ ◌∷◌ (ap (λ i. get_or cells i d) e)
        (window-mod cells (p + 1) (q + 1) count (next_mod p q e))

  -- Fewer than `n` steps round the ring do not come back.
  step_apart : (p k : ℕ) → suc k < n → (p + suc k) % n ≢ p % n
  step_apart p k h e = elim (dec_lt (p % n + suc k) n) [
    | yes below ↦
        omega (arith, mod-add-mod p n (suc k), mod-eq_of_lt {n = p % n + suc k} {m = n} below)
    | no over ↦ omega (
      arith,
      mod-add-mod p n (suc k),
      mod-eq-sub-mod {n = p % n + suc k} {m = n} (omega arith),
      mod-eq_of_lt {n = p % n + suc k - n} {m = n} (omega arith),
    )
  ]

  -- Writing the cell just past a window of fewer than `n` cells adds its item at the end.
  window-set_at :
      (cells : List A) (p count i : ℕ) (x : A)
      → length cells ≡ n
      → count < n
      → i ≡ (p + count) % n
      → window (set cells i x) p (suc count) ≡ window cells p count ++ (x ∷ [])
  unfolding window
  window-set_at cells p zero i x full h e =
      let here : p % n ≡ i = (omega (arith, e, ap (λ t. t % n) (add-zero p))) in
      rw here (rw (get_or-set_self cells i x d (omega arith)))
  window-set_at cells p (suc count) i x full h e =
      ap₂ ◌∷◌ (get_or-set_ne cells i (p % n) x d (rw e (step_apart p count (omega arith))))
        (window-set_at cells (p + 1) count i x full (omega arith) (e ∙ ap (λ t. t % n) shift))
    where
      shift : p + suc count ≡ p + 1 + count
      shift = omega arith

  pub window-set :
      (cells : List A) (p count : ℕ) (x : A)
      → length cells ≡ n
      → count < n
      → window (set cells ((p + count) % n) x) p (suc count) ≡ window cells p count ++ (x ∷ [])
  window-set cells p count x full h = window-set_at cells p count _ x full h refl

  -- Writing the cell just before a window of fewer than `n` cells leaves the window alone.
  pub window-set_before :
      (cells : List A) (p j count : ℕ) (x : A)
      → j + count < n
      → window (set cells (p % n) x) (p + suc j) count ≡ window cells (p + suc j) count
  unfolding window
  window-set_before cells p j zero x h = refl
  window-set_before cells p j (suc count) x h =
      ap₂ ◌∷◌
        (get_or-set_ne cells (p % n) ((p + suc j) % n) x d
          (λ e. step_apart p j (omega arith) (sym e)))
        (ap (λ q. window (set cells (p % n) x) q count) on
          ∙ window-set_before cells p (suc j) count x (omega arith)
          ∙ ap (λ q. window cells q count) (sym on))
    where
      on : p + suc j + 1 ≡ p + suc (suc j)
      on = omega arith

  pub length-write_run :
      (cells : List A) (pos : ℕ) (xs : List A) → length (write_run cells pos xs) ≡ length cells
  unfolding write_run
  length-write_run cells pos [] = refl
  length-write_run cells pos (x ∷ xs) =
      length-write_run (set cells (pos % n) x) (pos + 1) xs ∙ length-set cells (pos % n) x

  pub write_run-mod :
      (cells : List A) (p q : ℕ) (xs : List A)
      → p % n ≡ q % n
      → write_run cells p xs ≡ write_run cells q xs
  unfolding write_run
  write_run-mod cells p q [] e = refl
  write_run-mod cells p q (x ∷ xs) e =
      write_run-mod (set cells (p % n) x) (p + 1) (q + 1) xs (next_mod p q e)
      ∙ ap (λ i. write_run (set cells i x) (q + 1) xs) e

  -- A run of writes past a window adds the whole run, if it fits.
  pub window-write_run :
      (cells : List A) (p count : ℕ) (xs : List A)
      → length cells ≡ n
      → count + length xs ≤ n
      → window (write_run cells (p + count) xs) p (count + length xs) ≡ window cells p count ++ xs
  unfolding write_run
  window-write_run cells p count [] full h = rw (add-zero count, append-nil (window cells p count))
  window-write_run cells p count (x ∷ xs) full h =
      ap₂ (λ from c. window (write_run stored from xs) p c) (omega arith) (omega arith)
      ∙ window-write_run stored p (suc count) xs (length-set cells ((p + count) % n) x ∙ full)
          (omega arith)
      ∙ ap (λ l. l ++ xs) (window-set cells p count x full (omega arith))
      ∙ append_assoc (window cells p count) (x ∷ []) xs
    where
      stored : List A
      stored = set cells ((p + count) % n) x

  -- Dropping from the front of a window starts it later.
  pub drop-window :
      (cells : List A) (p count k : ℕ)
      → k ≤ count
      → drop k (window cells p count) ≡ window cells (p + k) (count - k)
  unfolding window
  drop-window cells p count zero h = rw (add-zero p) (ap (window cells p) (omega arith))
  drop-window cells p zero (suc k) h = absurd (omega arith)
  drop-window cells p (suc count) (suc k) h =
      drop-window cells (p + 1) count k (omega arith)
      ∙ ap₂ (window cells) (omega arith) (omega arith)

  pub take-window :
      (cells : List A) (p count k : ℕ)
      → k ≤ count
      → take k (window cells p count) ≡ window cells p k
  unfolding window
  take-window cells p count zero h = refl
  take-window cells p zero (suc k) h = absurd (omega arith)
  take-window cells p (suc count) (suc k) h =
      ap (λ l. get_or cells (p % n) d ∷ l) (take-window cells (p + 1) count k (omega arith))
