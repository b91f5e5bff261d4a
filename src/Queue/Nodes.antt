-- ===== src/Queue/Nodes.antt =====
-- What holds of the nodes and the threads in every interleaving.
use flowcoro.Base.{
  ℕ, ◌+◌, ◌≡◌, ◌≤◌, ◌<◌, refl, ◌∙◌, Bool, true, false, ◌==◌, update, occurrences, arith, Bool-cases,
  inl, inr,
}
use mathlib.Core.Path.{subst}
use flowcoro.Queue.{
  Producer, is_idle, links, Consumer, loads_head, confirms, loads_tail, loads_next, decides,
  confirms_again, swings, takes, has_taken, found_empty, found_null, State, enqueue_step, goes,
}

abbrev pub one_if : Bool → ℕ
one_if true = 1
one_if false = 0

-- The nodes: those behind the head have their data, the others have it or were handed out once.
pub record IsChain (s : State) : Type 0 where
  pub order : s.head ≤ s.tail
  pub joined : (n : ℕ) → s.linked n ≡ true → n < s.tail
  pub waiting : (n : ℕ) → s.head < n → n ≤ s.tail → s.has_data n ≡ true
  pub unused : (n : ℕ) → s.head < n → occurrences n s.given ≡ 0
  pub used : (n : ℕ) → 0 < n → n ≤ s.head → occurrences n s.given + one_if (s.has_data n) ≡ 1

abbrev pub Joins : State → Producer → Type 0
Joins s is_idle = Unit {0}
Joins s (links n) = n < s.tail

-- What a consumer knows at each place.
abbrev pub Knows : State → ℕ → Consumer → Type 0
Knows s c loads_head = Unit {0}
Knows s c (confirms h) = h ≤ s.head
Knows s c (loads_tail h) = h ≤ s.head
Knows s c (loads_next h t) = (h ≤ s.head) × (t ≤ s.tail) × ((h == t) ≡ true → s.saw_empty c ≡ true)
Knows s c (decides h t next) =
    (next ≡ true → s.linked h ≡ true) × ((h == t) ≡ true → s.saw_empty c ≡ true)
Knows s c (confirms_again h) = s.linked h ≡ true
Knows s c (swings h) = s.linked h ≡ true
Knows s c (takes n) = (0 < n) × (n ≤ s.head) × (s.has_data n ≡ true) × (s.owner n ≡ c)
Knows s c (has_taken n) = Unit {0}
Knows s c found_empty = s.saw_empty c ≡ true
Knows s c found_null = ⊥

pub record IsSound (s : State) : Type 0 where
  pub chain : IsChain s
  pub joins : (p : ℕ) → Joins s (s.producer p)
  pub knows : (c : ℕ) → Knows s c (s.consumer c)

-- How a step of another thread may change what consumer `d` looks at.
pub record Grows (s r : State) (d : ℕ) : Type 0 where
  pub head_up : s.head ≤ r.head
  pub tail_up : s.tail ≤ r.tail
  pub links_stay : (n : ℕ) → s.linked n ≡ true → r.linked n ≡ true
  pub saw_same : r.saw_empty d ≡ s.saw_empty d
  pub own_stay :
      (n : ℕ)
      → n ≤ s.head
      → s.owner n ≡ d
      → s.has_data n ≡ true
      → (r.has_data n ≡ true) × (r.owner n ≡ d)

Knows-later : {s r : State} {d : ℕ} (k : Consumer) → Grows s r d → Knows s d k → Knows r d k
Knows-later loads_head g v = v
Knows-later (confirms h) g v = omega (arith, g.head_up)
Knows-later (loads_tail h) g v = omega (arith, g.head_up)
Knows-later (loads_next h t) g (a, b, c) =
    (omega (arith, g.head_up), omega (arith, g.tail_up), λ e. g.saw_same ∙ c e)
Knows-later (decides h t next) g (a, b) = (λ e. g.links_stay h (a e), λ e. g.saw_same ∙ b e)
Knows-later (confirms_again h) g v = g.links_stay h v
Knows-later (swings h) g v = g.links_stay h v
Knows-later (takes n) g (a, b, c, o) =
    let (c', o') = g.own_stay n b o c in (a, omega (arith, g.head_up), c', o')
Knows-later (has_taken n) g v = v
Knows-later found_empty g v = g.saw_same ∙ v
Knows-later found_null g v = v

-- A consumer moves on; the others know what they knew.
pub moved :
    (s r : State) (c : ℕ) (k : Consumer)
    → IsSound s
    → Knows r c k
    → ((d : ℕ) → (c == d) ≡ false → Grows s r d)
    → (d : ℕ) → Knows r d (update s.consumer c k d)
moved s r c k v own others d = elim (Bool-cases (c == d)) [
  | inl e ↦ rw e (subst (λ x. Knows r x k) (ground (arith, e)) own)
  | inr e ↦ rw e (Knows-later (s.consumer d) (others d e) (v.knows d))
]

-- Nothing but the place changes.
pub goes-IsSound :
    (s : State) (c : ℕ) (k : Consumer) → IsSound s → Knows s c k → IsSound (goes s c k)
goes-IsSound s c k v own = record {
  chain = record {
    order = v.chain.order;
    joined = v.chain.joined;
    waiting = v.chain.waiting;
    unused = v.chain.unused;
    used = v.chain.used;
  };
  joins = v.joins;
  knows = moved s s c k v own (λ d e. record {
    head_up = omega arith;
    tail_up = omega arith;
    links_stay = λ n h. h;
    saw_same = refl;
    own_stay = λ n a o h. (h, o);
  });
}

Joins-later : (s r : State) (p : Producer) → s.tail ≤ r.tail → Joins s p → Joins r p
Joins-later s r is_idle g v = v
Joins-later s r (links n) g v = omega arith

pub enqueue_step-IsSound :
    (s : State) (p item : ℕ) (k : Producer)
    → s.producer p ≡ k
    → IsSound s
    → IsSound (enqueue_step s p item k)
unfolding enqueue_step
enqueue_step-IsSound s p item is_idle at v = record {
  chain = record {
    order = omega (arith, v.chain.order);
    joined = λ n h. omega (arith, v.chain.joined n h);
    waiting = λ n a b. ground (arith, v.chain.waiting n a, a, b);
    unused = v.chain.unused;
    used = λ n a b. ground (arith, v.chain.used n a b, v.chain.order);
  };
  joins = λ q. elim (Bool-cases (p == q)) [
    | inl e ↦ rw e (omega arith)
    | inr e ↦
        rw e
          (Joins-later s (enqueue_step s p item is_idle) (s.producer q) (omega arith) (v.joins q))
  ];
  knows = λ d.
      Knows-later {s = s} {r = enqueue_step s p item is_idle} {d = d} (s.consumer d)
        (record {
          head_up = omega arith;
          tail_up = omega arith;
          links_stay = λ n h. h;
          saw_same = refl;
          own_stay = λ n a o h. (ground (arith, h), o);
        })
        (v.knows d);
}
enqueue_step-IsSound s p item (links m) at v = record {
  chain = record {
    order = v.chain.order;
    joined = λ n h. ground (arith, v.chain.joined n, h, subst (λ k. Joins s k) at (v.joins p));
    waiting = v.chain.waiting;
    unused = v.chain.unused;
    used = v.chain.used;
  };
  joins = λ q. elim (Bool-cases (p == q)) [
    | inl e ↦ rw e tt
    | inr e ↦
        rw e
          (Joins-later s (enqueue_step s p item (links m)) (s.producer q) (omega arith) (v.joins q))
  ];
  knows = λ d.
      Knows-later {s = s} {r = enqueue_step s p item (links m)} {d = d} (s.consumer d)
        (record {
          head_up = omega arith;
          tail_up = omega arith;
          links_stay = λ n h. ground (arith, h);
          saw_same = refl;
          own_stay = λ n a o h. (h, o);
        })
        (v.knows d);
}
