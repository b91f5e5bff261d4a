-- ===== src/Ring/Cache/Batch.antt =====
-- `push_batch` and `pop_batch` of include/flowcoro/buffer.h beside the bounded queue.
use mathlib.Core.Path.{ap₂}
use native.Mathlib.Nat.{mod-mod, mod-eq_of_lt, add-zero}
use native.Mathlib.Decide.{ℕ_discrete}
use flowcoro.Base.{
  ℕ, zero, suc, ◌+◌, ◌-◌, ◌%◌, ◌^◌, ◌≤◌, ◌<◌, ◌≡◌, refl, sym, ap, ◌∙◌, List, [], ◌∷◌, ◌++◌, arith,
  length, length-take, take-min-length, drop-min-length, set, get_or, take, drop, min, eq→==,
  ne→==_false, add64, sub64, append-nil,
}
use flowcoro.Fifo
use flowcoro.Ring.Position.{between, between-lt, end_of_items, between-write, between-read}
use flowcoro.Ring.Window.{
  window, write_run, window-write_run, length-write_run, window-mod, write_run-mod, take-window,
  drop-window,
}
use flowcoro.Ring.Cache.{Cache, masked, store_from, load_from, push_batch, pop_batch}
use flowcoro.Ring.Cache.Valid.{
  IsValid, count, contents, length-contents, masked_add, masked_sub, masked_room,
}

module _ {ℓ} {A : Type ℓ} (d : A) (k : ℕ) (h : k ≤ 64) where
  abbrev n : ℕ
  n = 2 ^ k

  -- The loops touch the cells of a run, round the end of the ring.
  store_from-write_run :
      (cells : List A) (pos i : ℕ) (xs : List A)
      → store_from k cells pos i xs ≡ write_run d n cells (pos + i) xs
  unfolding store_from write_run
  store_from-write_run cells pos i [] = refl
  store_from-write_run cells pos i (x ∷ xs) =
      store_from-write_run (set cells (masked k (add64 pos i)) x) pos (i + 1) xs
      ∙ ap₂ (λ j p. write_run d n (set cells j x) p xs) (masked_add k h pos i) (omega arith)

  load_from-window :
      (cells : List A) (pos i left : ℕ)
      → load_from d k cells pos i left ≡ window d n cells (pos + i) left
  unfolding load_from window
  load_from-window cells pos i zero = refl
  load_from-window cells pos i (suc left) =
      ap₂ (λ j rest. get_or cells j d ∷ rest) (masked_add k h pos i)
        (load_from-window cells pos (i + 1) left ∙ ap (λ p. window d n cells p left) (omega arith))

  after_push : Cache A → List A → ℕ → Cache A
  after_push r xs m = record r {
    cells = store_from k r.cells r.write_pos 0 xs;
    write_pos = masked k (add64 r.write_pos m);
  }

  stored :
      (r : Cache A) (xs : List A) (m : ℕ)
      → IsValid k r
      → length xs ≡ m
      → count k r + m < n
      → (contents d k (after_push r xs m) ≡ contents d k r ++ xs) × IsValid k (after_push r xs m)
  unfolding after_push
  stored r xs m v e fits = (
    ap₂ (λ c l. window d n c r.read_pos l) written longer
        ∙ window-write_run d n r.cells r.read_pos (count k r) xs v.cells_all (omega arith),
    record {
      cells_all =
          ap length (store_from-write_run r.cells r.write_pos 0 xs)
          ∙ length-write_run d n r.cells (r.write_pos + 0) xs
          ∙ v.cells_all;
      write_in = rw (masked_add k h r.write_pos m) (omega (arith, v.write_in));
      read_in = v.read_in;
    },
  )
    where
      from_end : (r.write_pos + 0) % n ≡ (r.read_pos + count k r) % n
      from_end =
          ap (λ t. t % n) (add-zero r.write_pos)
          ∙ mod-eq_of_lt v.write_in
          ∙ sym (end_of_items n r.write_pos r.read_pos v.write_in v.read_in)

      written :
          store_from k r.cells r.write_pos 0 xs ≡ write_run d n r.cells (r.read_pos + count k r) xs
      written =
          store_from-write_run r.cells r.write_pos 0 xs
          ∙ write_run-mod d n r.cells (r.write_pos + 0) (r.read_pos + count k r) xs from_end

      longer : between n (masked k (add64 r.write_pos m)) r.read_pos ≡ count k r + length xs
      longer =
          ap (λ w. between n w r.read_pos) (masked_add k h r.write_pos m)
          ∙ between-write n r.write_pos r.read_pos m v.write_in v.read_in fits
          ∙ ap (λ t. count k r + t) (sym e)

  -- On a valid ring of `2 ^ k` cells, k up to 64, `push_batch` takes and reports as many items as
  -- there is room for, in order behind the contents, and leaves the ring valid.
  pub push_batch_refines :
      (r : Cache A) (items : List A)
      → IsValid k r
      → let (taken, r') = push_batch k r items in
        ((taken, contents d k r') ≡ Fifo.push_batch (2 ^ k - 1) (contents d k r) items)
        × IsValid k r'
  unfolding push_batch Fifo.push_batch after_push
  push_batch_refines r items v = rw amount (elim (ℕ_discrete m 0) [
    | yes e ↦ rw (eq→== m 0 e) (
      ap (λ q. (0, q)) (sym (append-nil (contents d k r)))
          ∙ ap (λ j. (j, contents d k r ++ take j items)) (sym e),
      v,
    )
    | no ne ↦
        let done = stored r (take m items) m v taken fits in
        rw (ne→==_false m 0 ne) (ap (λ q. (m, q)) done.0, done.1)
  ])
    where
      m : ℕ
      m = min (length items) (n - 1 - length (contents d k r))

      there : length (contents d k r) ≡ count k r
      there = length-contents d k r

      amount : min (length items) (masked k (sub64 (sub64 r.read_pos r.write_pos) 1)) ≡ m
      amount = omega (arith, there, masked_room k h r.write_pos r.read_pos v.write_in v.read_in)

      taken : length (take m items) ≡ m
      taken = omega (arith, length-take m items)

      fits : count k r + m < n
      fits = omega (arith, there, between-lt n r.write_pos r.read_pos v.write_in)

  after_pop : Cache A → ℕ → Cache A
  after_pop r m = record r { read_pos = masked k (add64 r.read_pos m) }

  loaded :
      (r : Cache A) (m : ℕ)
      → IsValid k r
      → m ≤ count k r
      → (contents d k (after_pop r m) ≡ drop m (contents d k r)) × IsValid k (after_pop r m)
  unfolding after_pop
  loaded r m v there = (
    ap₂ (window d n r.cells) to_end shorter
        ∙ window-mod d n r.cells ((r.read_pos + m) % n) (r.read_pos + m) (count k r - m)
            (mod-mod (r.read_pos + m) n)
        ∙ sym (drop-window d n r.cells r.read_pos (count k r) m there),
    record {
      cells_all = v.cells_all;
      write_in = v.write_in;
      read_in = rw to_end (omega (arith, v.read_in));
    },
  )
    where
      to_end : masked k (add64 r.read_pos m) ≡ (r.read_pos + m) % n
      to_end = masked_add k h r.read_pos m

      shorter : between n r.write_pos (masked k (add64 r.read_pos m)) ≡ count k r - m
      shorter =
          rw to_end
            (omega (arith, between-read n r.write_pos r.read_pos m v.write_in v.read_in there))

  -- On a valid ring of `2 ^ k` cells, k up to 64, `pop_batch` hands out the oldest items, as many
  -- as were asked for or as there are, keeps the rest in order, and leaves the ring valid.
  pub pop_batch_refines :
      (r : Cache A) (wanted : ℕ)
      → IsValid k r
      → let (out, r') = pop_batch d k r wanted in
        ((out, contents d k r') ≡ Fifo.pop_batch (contents d k r) wanted) × IsValid k r'
  unfolding pop_batch Fifo.pop_batch after_pop
  pop_batch_refines r wanted v = rw amount (elim (ℕ_discrete m 0) [
    | yes e ↦
        rw (eq→== m 0 e)
          (ap (λ j. (take j (contents d k r), drop j (contents d k r))) (sym e) ∙ bounded, v)
    | no ne ↦
        let done = loaded r m v there in
        rw (ne→==_false m 0 ne) (ap₂ (λ out left. (out, left)) read done.0 ∙ bounded, done.1)
  ])
    where
      m : ℕ
      m = min wanted (length (contents d k r))

      there : m ≤ count k r
      there = omega (arith, length-contents d k r)

      amount : min wanted (masked k (sub64 r.write_pos r.read_pos)) ≡ m
      amount = omega (
        arith,
        length-contents d k r,
        masked_sub k h r.write_pos r.read_pos (omega (arith, v.read_in)),
      )

      bounded :
          ◌≡◌ {A = List A × List A}
            (take m (contents d k r), drop m (contents d k r))
            (take wanted (contents d k r), drop wanted (contents d k r))
      bounded =
          ap₂ (λ out left. (out, left)) (take-min-length wanted (contents d k r))
            (drop-min-length wanted (contents d k r))

      read : load_from d k r.cells r.read_pos 0 m ≡ take m (contents d k r)
      read =
          load_from-window r.cells r.read_pos 0 m
          ∙ ap (λ p. window d n r.cells p m) (add-zero r.read_pos)
          ∙ sym (take-window d n r.cells r.read_pos (count k r) m there)
