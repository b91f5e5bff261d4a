-- ===== src/Ring/Slots/Refine.antt =====
-- The ring of include/flowcoro/lockfree.h, with its flags, beside the bounded queue.
use mathlib.Core.Path.{ap₂}
use native.Mathlib.Nat.{one-le-pow, mod-mod, mod-eq_of_lt}
use native.Mathlib.Decide.{ℕ_discrete}
use flowcoro.Base.{
  Option, ℕ, zero, suc, ◌+◌, ◌-◌, ◌%◌, ◌^◌, ◌≤◌, ◌<◌, ◌≡◌, sym, ap, ◌∙◌, ◌≢◌, inl, inr, List, [],
  ◌∷◌, ◌++◌, arith, length, length-set, length-replicate, replicate-append, replicate, set, get_or,
  drop, Bool, true, false, ◌==◌, Bool-cases, eq→==, ne→==_false, add64,
}
use flowcoro.Fifo
use flowcoro.Ring.Position.{
  between, between-lt, end_of_items, between-write, between-read, full-between, between-empty,
  between_self,
}
use flowcoro.Ring.Window.{window, window-set, window-set_before, window-mod}
use flowcoro.Ring.Cache
use flowcoro.Ring.Cache.{Cache, masked}
use flowcoro.Ring.Cache.Valid.{count, contents, masked_add}
use flowcoro.Ring.Cache.Valid
use flowcoro.Ring.Cache.Refine
use flowcoro.Ring.Slots.{Slots, init, push, pop}

-- The slots without their flags are a ring of the other kind.
abbrev pub plain {ℓ} : {A : Type ℓ} → Slots A → Cache A
plain r = record { cells = r.items; write_pos = r.tail; read_pos = r.head }

pub record IsValid {ℓ} {A : Type ℓ} (k : ℕ) (r : Slots A) : Type ℓ where
  pub ring : Valid.IsValid k (plain r)
  pub flags_all : length r.valid ≡ 2 ^ k
  pub marked :
      window false (2 ^ k) r.valid r.head (count k (plain r)) ≡ replicate (count k (plain r)) true

module _ {ℓ} {A : Type ℓ} (d : A) (k : ℕ) (h : k ≤ 64) where
  abbrev n : ℕ
  n = 2 ^ k

  plain-push :
      (r : Slots A) (x : A)
      → ◌≡◌ {A = Bool × Cache A}
          ((push d k r x).0, plain (push d k r x).1)
          (Cache.push k (plain r) x)
  unfolding push Cache.push
  plain-push r x = elim (Bool-cases (masked k (add64 r.tail 1) == r.head)) [
    | inl e ↦ rw e
    | inr e ↦ rw e
  ]

  push-marked :
      (r : Slots A) (w : ℕ)
      → IsValid k r
      → w ≡ (r.tail + 1) % n
      → w ≢ r.head
      → window false n (set r.valid r.tail true) r.head (between n w r.head)
        ≡ replicate (between n w r.head) true
  push-marked r w v e free = rw longer (
      ap (λ i. window false n (set r.valid i true) r.head (suc items)) (sym at)
      ∙ window-set false n r.valid r.head items true v.flags_all (omega arith)
      ∙ ap (λ l. l ++ (true ∷ [])) v.marked
      ∙ replicate-append items true)
    where
      items : ℕ
      items = count k (plain r)

      at : (r.head + items) % n ≡ r.tail
      at = end_of_items n r.tail r.head v.ring.write_in v.ring.read_in

      fits : items + 1 < n
      fits = grind (
        arith,
        full-between n r.tail r.head v.ring.write_in v.ring.read_in,
        between-lt n r.tail r.head v.ring.write_in,
      )

      longer : between n w r.head ≡ suc items
      longer =
          rw e (omega (arith, between-write n r.tail r.head 1 v.ring.write_in v.ring.read_in fits))

  push-IsValid : (r : Slots A) (x : A) → IsValid k r → IsValid k (push d k r x).1
  unfolding push
  push-IsValid r x v = record {
    ring = rw (ap (λ q. q.1) (plain-push r x)) (Refine.push_refines d k h (plain r) x v.ring).1;
    flags_all = elim (Bool-cases (next == r.head)) [
      | inl e ↦ rw e v.flags_all
      | inr e ↦ rw e (length-set r.valid r.tail true ∙ v.flags_all)
    ];
    marked = elim (ℕ_discrete next r.head) [
      | yes e ↦ rw (eq→== next r.head e) v.marked
      | no ne ↦ rw (ne→==_false next r.head ne) (push-marked r next v (masked_add k h r.tail 1) ne)
    ];
  }
    where
      next : ℕ
      next = masked k (add64 r.tail 1)

  -- On a valid ring of flagged slots, `2 ^ k` of them with k up to 64, `push` does what it does
  -- on a queue of at most `2 ^ k - 1` items, and the flags again mark exactly the contents.
  pub slots_push_refines :
      (r : Slots A) (x : A)
      → IsValid k r
      → let (s, r') = push d k r x in
        (◌≡◌ {A = Bool × List A}
          (s, contents d k (plain r'))
          (Fifo.push (2 ^ k - 1) (contents d k (plain r)) x))
        × IsValid k r'
  slots_push_refines r x v = (
    ap (λ q. (q.0, contents d k q.1)) (plain-push r x)
        ∙ (Refine.push_refines d k h (plain r) x v.ring).0,
    push-IsValid r x v,
  )

  -- The flag that `pop` reads is set wherever there is an item to pop.
  flag-set : (r : Slots A) → IsValid k r → r.head ≢ r.tail → get_or r.valid r.head false ≡ true
  unfolding window
  flag-set r v ne = first (count k (plain r)) v.marked items
    where
      items : 0 < count k (plain r)
      items = grind (arith, between-empty n r.tail r.head v.ring.write_in v.ring.read_in)

      first :
          (c : ℕ)
          → window false n r.valid r.head c ≡ replicate c true
          → 0 < c
          → get_or r.valid r.head false ≡ true
      first zero e pos = absurd (omega arith)
      first (suc c) e pos =
          ap (λ i. get_or r.valid i false) (sym (mod-eq_of_lt v.ring.read_in))
          ∙ ap (λ l. get_or l 0 false) e

  plain-pop :
      (r : Slots A)
      → IsValid k r
      → ◌≡◌ {A = Option A × Cache A} ((pop d k r).0, plain (pop d k r).1) (Cache.pop d k (plain r))
  unfolding pop Cache.pop
  plain-pop r v = elim (ℕ_discrete r.head r.tail) [
    | yes e ↦ rw (eq→== r.head r.tail e)
    | no ne ↦ rw (ne→==_false r.head r.tail ne, flag-set r v ne)
  ]

  pop-marked :
      (r : Slots A) (p : ℕ)
      → IsValid k r
      → p ≡ (r.head + 1) % n
      → r.head ≢ r.tail
      → window false n (set r.valid r.head false) p (between n r.tail p)
        ≡ replicate (between n r.tail p) true
  unfolding window
  pop-marked r p v e ne =
      window-mod false n (set r.valid r.head false) p (r.head + 1) left there
      ∙ ap₂ (λ i q. window false n (set r.valid i false) q left) (sym in_range) (omega arith)
      ∙ window-set_before false n r.valid r.head 0 left false (omega arith)
      ∙ ap (λ q. window false n r.valid q left) (omega arith)
      ∙ ap (drop 1) (rw shorter at v.marked)
    where
      left : ℕ
      left = between n r.tail p

      in_range : r.head % n ≡ r.head
      in_range = mod-eq_of_lt v.ring.read_in

      there : p % n ≡ (r.head + 1) % n
      there = rw e (mod-mod (r.head + 1) n)

      items : 0 < count k (plain r)
      items = grind (arith, between-empty n r.tail r.head v.ring.write_in v.ring.read_in)

      shorter : count k (plain r) ≡ suc left
      shorter =
          rw e (omega (arith, between-read n r.tail r.head 1 v.ring.write_in v.ring.read_in items))

  pop-IsValid : (r : Slots A) → IsValid k r → IsValid k (pop d k r).1
  unfolding pop
  pop-IsValid r v = record {
    ring = rw (ap (λ q. q.1) (plain-pop r v)) (Refine.pop_refines d k h (plain r) v.ring).1;
    flags_all = elim (ℕ_discrete r.head r.tail) [
      | yes e ↦ rw (eq→== r.head r.tail e) v.flags_all
      | no ne ↦
          rw (ne→==_false r.head r.tail ne, flag-set r v ne)
            (length-set r.valid r.head false ∙ v.flags_all)
    ];
    marked = elim (ℕ_discrete r.head r.tail) [
      | yes e ↦ rw (eq→== r.head r.tail e) v.marked
      | no ne ↦
          rw (ne→==_false r.head r.tail ne, flag-set r v ne)
            (pop-marked r (masked k (add64 r.head 1)) v (masked_add k h r.head 1) ne)
    ];
  }

  -- On a valid ring of flagged slots, `2 ^ k` of them with k up to 64, `pop` hands out the oldest
  -- item if there is one, never stopping at an unset flag, and the flags again mark exactly the
  -- contents.
  pub slots_pop_refines :
      (r : Slots A)
      → IsValid k r
      → let (out, r') = pop d k r in
        (◌≡◌ {A = Option A × List A}
          (out, contents d k (plain r'))
          (Fifo.pop (contents d k (plain r))))
        × IsValid k r'
  slots_pop_refines r v = (
    ap (λ q. (q.0, contents d k q.1)) (plain-pop r v)
        ∙ (Refine.pop_refines d k h (plain r) v.ring).0,
    pop-IsValid r v,
  )

  pub init-IsValid : IsValid k (init d k) × (contents d k (plain (init d k)) ≡ [])
  unfolding init Cache.init window
  init-IsValid = (
    record {
      ring = (Refine.init-IsValid d k h).0;
      flags_all = length-replicate n false;
      marked = rw (between_self n 0 (one-le-pow k 2 (omega arith)));
    },
    (Refine.init-IsValid d k h).1,
  )
