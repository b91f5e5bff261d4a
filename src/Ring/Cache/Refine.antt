-- ===== src/Ring/Cache/Refine.antt =====
-- The ring of include/flowcoro/buffer.h beside the bounded queue, one item at a time.
use native.Mathlib.Nat.{one-le-pow, mod-mod, mod-eq_of_lt}
use native.Mathlib.Decide.{ℕ_discrete}
use mathlib.Core.Path.{ap₂}
use flowcoro.Base.{
  ◌==◌, ℕ, suc, ◌+◌, ◌-◌, ◌%◌, ◌^◌, ◌≤◌, ◌<◌, ◌≡◌, refl, sym, ap, ◌∙◌, ◌≢◌, [], ◌∷◌, ◌++◌, arith,
  length, length-set, length-replicate, set, get_or, true, eq→==, ne→==_false, le→ltb_false, lt→ltb,
  add64,
}
use flowcoro.Fifo
use flowcoro.Ring.Position.{
  between, between-lt, end_of_items, between-write, between-read, between-full, full-between,
  between-empty, between_self,
}
use flowcoro.Ring.Window.{window, window-set, window-mod}
use flowcoro.Ring.Cache.{Cache, empty, full, masked, init, push, pop, size}
use flowcoro.Ring.Cache.Valid.{IsValid, count, contents, length-contents, masked_add, masked_sub}

module _ {ℓ} {A : Type ℓ} (d : A) (k : ℕ) (h : k ≤ 64) where
  abbrev n : ℕ
  n = 2 ^ k

  -- The constructor makes a valid, empty ring.
  pub init-IsValid : IsValid k (init d k) × (contents d k (init d k) ≡ [])
  unfolding init window
  init-IsValid = (
    record {
      cells_all = length-replicate n d;
      write_in = one-le-pow k 2 (omega arith);
      read_in = one-le-pow k 2 (omega arith);
    },
    rw (between_self n 0 (one-le-pow k 2 (omega arith))),
  )

  -- On a valid ring of `2 ^ k` cells, k up to 64, `size` is the number of items.
  pub size_lem : (r : Cache A) → IsValid k r → size k r ≡ length (contents d k r)
  unfolding size
  size_lem r v = masked_sub k h r.write_pos r.read_pos (omega arith) ∙ sym (length-contents d k r)

  -- On a valid ring of `2 ^ k` cells, k up to 64, `empty` says whether there are no items and
  -- `full` whether there are `2 ^ k - 1`.
  pub extremes_lem :
      (r : Cache A)
      → IsValid k r
      → (empty k r ≡ (length (contents d k r) == 0))
        × (full k r ≡ (length (contents d k r) == n - 1))
  unfolding empty full
  extremes_lem r v =
      rw (length-contents d k r, masked_add k h r.write_pos 1)
        (
          ground (
            arith,
            between-empty n r.write_pos r.read_pos v.write_in v.read_in,
            between_self n r.read_pos v.read_in,
          ),
          ground (
            arith,
            full-between n r.write_pos r.read_pos v.write_in v.read_in,
            between-full n r.write_pos r.read_pos v.write_in v.read_in,
          ),
        )

  advance_write : Cache A → A → ℕ → Cache A
  advance_write r x w = record r { cells = set r.cells r.write_pos x; write_pos = w }

  push-room :
      (r : Cache A) (x : A) (w : ℕ)
      → IsValid k r
      → w ≡ (r.write_pos + 1) % n
      → w ≢ r.read_pos
      → (contents d k (advance_write r x w) ≡ contents d k r ++ (x ∷ []))
        × IsValid k (advance_write r x w)
  unfolding advance_write
  push-room r x w v e free = (
    ap (window d n (set r.cells r.write_pos x) r.read_pos) longer
        ∙ ap (λ i. window d n (set r.cells i x) r.read_pos (suc (count k r))) (sym at)
        ∙ window-set d n r.cells r.read_pos (count k r) x v.cells_all (omega arith),
    record {
      cells_all = length-set r.cells r.write_pos x ∙ v.cells_all;
      write_in = omega (arith, v.write_in);
      read_in = v.read_in;
    },
  )
    where
      at : (r.read_pos + count k r) % n ≡ r.write_pos
      at = end_of_items n r.write_pos r.read_pos v.write_in v.read_in

      fits : count k r + 1 < n
      fits = grind (
        arith,
        full-between n r.write_pos r.read_pos v.write_in v.read_in,
        between-lt n r.write_pos r.read_pos v.write_in,
      )

      longer : between n w r.read_pos ≡ suc (count k r)
      longer =
          rw e (omega (arith, between-write n r.write_pos r.read_pos 1 v.write_in v.read_in fits))

  -- On a valid ring of `2 ^ k` cells, k up to 64, `push` does what it does on a queue of at most
  -- `2 ^ k - 1` items, and leaves the ring valid.
  pub push_refines :
      (r : Cache A) (x : A)
      → IsValid k r
      → let (s, r') = push k r x in
        ((s, contents d k r') ≡ Fifo.push (2 ^ k - 1) (contents d k r) x) × IsValid k r'
  unfolding push Fifo.push advance_write
  push_refines r x v = elim (ℕ_discrete next r.read_pos) [
    | yes e ↦ rw (eq→== next r.read_pos e, le→ltb_false items (n - 1) (at_limit e)) (refl, v)
    | no ne ↦
        let room = push-room r x next v (masked_add k h r.write_pos 1) ne in
        rw (ne→==_false next r.read_pos ne, lt→ltb items (n - 1) (below_limit ne))
          (ap (λ q. (true, q)) room.0, room.1)
  ]
    where
      next : ℕ
      next = masked k (add64 r.write_pos 1)

      items : ℕ
      items = length (contents d k r)

      at_limit : next ≡ r.read_pos → n - 1 ≤ items
      at_limit e = omega (
        arith,
        length-contents d k r,
        between-full n r.write_pos r.read_pos v.write_in v.read_in
            (sym (masked_add k h r.write_pos 1) ∙ e),
      )

      below_limit : next ≢ r.read_pos → items < n - 1
      below_limit ne = grind (
        arith,
        length-contents d k r,
        masked_add k h r.write_pos 1,
        full-between n r.write_pos r.read_pos v.write_in v.read_in,
        between-lt n r.write_pos r.read_pos v.write_in,
      )

  advance_read : Cache A → ℕ → Cache A
  advance_read r p = record r { read_pos = p }

  pop-some :
      (r : Cache A) (p : ℕ)
      → IsValid k r
      → p ≡ (r.read_pos + 1) % n
      → r.read_pos ≢ r.write_pos
      → (contents d k r ≡ get_or r.cells r.read_pos d ∷ contents d k (advance_read r p))
        × IsValid k (advance_read r p)
  unfolding window advance_read
  pop-some r p v e some_item = (
    ap (window d n r.cells r.read_pos) shorter
        ∙ ap₂ (λ i l. get_or r.cells i d ∷ l) (mod-eq_of_lt v.read_in)
            (window-mod d n r.cells (r.read_pos + 1) p (between n r.write_pos p) moved),
    record { cells_all = v.cells_all; write_in = v.write_in; read_in = omega (arith, v.read_in) },
  )
    where
      items : 0 < count k r
      items = grind (arith, between-empty n r.write_pos r.read_pos v.write_in v.read_in)

      shorter : count k r ≡ suc (between n r.write_pos p)
      shorter =
          rw e (omega (arith, between-read n r.write_pos r.read_pos 1 v.write_in v.read_in items))

      moved : (r.read_pos + 1) % n ≡ p % n
      moved = rw e (sym (mod-mod (r.read_pos + 1) n))

  -- On a valid ring of `2 ^ k` cells, k up to 64, `pop` hands out the oldest item if there is
  -- one, keeps the rest in order, and leaves the ring valid.
  pub pop_refines :
      (r : Cache A)
      → IsValid k r
      → let (out, r') = pop d k r in
        ((out, contents d k r') ≡ Fifo.pop (contents d k r)) × IsValid k r'
  unfolding pop Fifo.pop advance_read window
  pop_refines r v = elim (ℕ_discrete r.read_pos r.write_pos) [
    | yes e ↦ rw (eq→== r.read_pos r.write_pos e) (rw (nothing e), v)
    | no ne ↦
        let rest = pop-some r next v (masked_add k h r.read_pos 1) ne in
        rw (ne→==_false r.read_pos r.write_pos ne) (rw (rest.0), rest.1)
  ]
    where
      next : ℕ
      next = masked k (add64 r.read_pos 1)

      nothing : r.read_pos ≡ r.write_pos → contents d k r ≡ []
      nothing e =
          ap (window d n r.cells r.read_pos)
            (ap (λ w. between n w r.read_pos) (sym e) ∙ between_self n r.read_pos v.read_in)
