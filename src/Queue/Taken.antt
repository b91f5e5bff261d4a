-- ===== src/Queue/Taken.antt =====
-- The queue's steps keep what holds of it, so every interleaving does.
use flowcoro.Base.{
  ℕ, suc, ◌+◌, ◌≡◌, ◌≢◌, ◌≤◌, ◌<◌, refl, Bool, true, false, not, ◌&&◌, List, [], ◌∷◌, ◌==◌, update,
  occurrences, arith, Bool-cases, ◌⊎◌, inl, inr,
}
use mathlib.Core.Path.{subst}
use flowcoro.Queue.{
  Consumer, loads_head, confirms, loads_tail, loads_next, decides, confirms_again, swings, takes,
  has_taken, found_empty, found_null, State, init, goes, decide, dequeue_step, Event, enqueues,
  dequeues, step, run,
}
use flowcoro.Queue.Claims.{IsClaimed, step-IsClaimed}
use flowcoro.Queue.Nodes.{one_if, Knows, IsSound, moved, goes-IsSound, enqueue_step-IsSound}

loads_tail-IsSound :
    (s : State) (c h : ℕ)
    → h ≤ s.head
    → IsSound s
    → IsSound (
        goes
          (record s { saw_empty = update s.saw_empty c (s.head == s.tail) })
          c
          (loads_next h s.tail))
loads_tail-IsSound s c h below v = record {
  chain = record {
    order = v.chain.order;
    joined = v.chain.joined;
    waiting = v.chain.waiting;
    unused = v.chain.unused;
    used = v.chain.used;
  };
  joins = v.joins;
  knows =
      moved s (record s { saw_empty = update s.saw_empty c (s.head == s.tail) }) c
        (loads_next h s.tail) v (below, omega arith, λ e. ground (arith, e, below, v.chain.order))
        (λ d e. record {
          head_up = omega arith;
          tail_up = omega arith;
          links_stay = λ n h. h;
          saw_same = ground (arith, e);
          own_stay = λ n a o h. (h, o);
        });
}

-- The exchange of the head gives the consumer the next node.
swings-IsSound :
    (s : State) (c h : ℕ)
    → s.head ≡ h
    → s.linked h ≡ true
    → IsSound s
    → IsSound (goes (record s { head = suc h; owner = update s.owner (suc h) c }) c (takes (suc h)))
swings-IsSound s c h at linked v = record {
  chain = record {
    order = omega (arith, v.chain.joined h linked);
    joined = v.chain.joined;
    waiting = λ n a b. v.chain.waiting n (omega arith) b;
    unused = λ n a. v.chain.unused n (omega arith);
    used = λ n a b.
        ground
          (arith, v.chain.used n a, v.chain.unused n, v.chain.waiting n, v.chain.joined h linked);
  };
  joins = v.joins;
  knows =
      moved s (record s { head = suc h; owner = update s.owner (suc h) c }) c (takes (suc h)) v
        (
          omega arith,
          omega arith,
          v.chain.waiting (suc h) (omega arith) (omega (arith, v.chain.joined h linked)),
          ground arith,
        )
        (λ d e. record {
          head_up = omega arith;
          tail_up = omega arith;
          links_stay = λ n h. h;
          saw_same = refl;
          own_stay = λ n a o h. (h, ground (arith, o, at, a));
        });
}

takes-IsSound :
    (s : State) (c n : ℕ)
    → Knows s c (takes n)
    → IsSound s
    → IsSound (
        goes
          (record s { has_data = update s.has_data n false; given = n ∷ s.given })
          c
          (has_taken n))
takes-IsSound s c n (some_node, below, here, owned) v = record {
  chain = record {
    order = v.chain.order;
    joined = v.chain.joined;
    waiting = λ m a b. ground (arith, v.chain.waiting m a b);
    unused = λ m a. ground (arith, v.chain.unused m a);
    used = λ m a b. ground (arith, here, v.chain.used m a b);
  };
  joins = v.joins;
  knows =
      moved s (record s { has_data = update s.has_data n false; given = n ∷ s.given }) c
        (has_taken n) v tt
        (λ d e. record {
          head_up = omega arith;
          tail_up = omega arith;
          links_stay = λ n h. h;
          saw_same = refl;
          own_stay = λ m a o h. (ground (arith, o, owned, e, h), o);
        });
}

decide-IsSound :
    (s : State) (c h t : ℕ) (next : Bool)
    → Knows s c (decides h t next)
    → IsSound s
    → (b : Bool) → (h == t) ≡ b
    → IsSound (decide s c h t next)
unfolding decide
decide-IsSound s c h t true (a, e) v true same =
    let ahead : (s.tail == t) ≡ false = ground (arith, same, v.chain.joined h (a refl)) in
    rw (same, ahead) (goes-IsSound s c loads_head v tt)
decide-IsSound s c h t false (a, e) v true same = rw same (goes-IsSound s c found_empty v (e same))
decide-IsSound s c h t true (a, e) v false same =
    rw same (goes-IsSound s c (confirms_again h) v (a refl))
decide-IsSound s c h t false (a, e) v false same = rw same (goes-IsSound s c loads_head v tt)

dequeue_step-IsSound :
    (s : State) (c : ℕ) (spurious : Bool) (k : Consumer)
    → Knows s c k
    → IsSound s
    → IsSound (dequeue_step s c spurious k)
unfolding dequeue_step
dequeue_step-IsSound s c spurious loads_head own v =
    goes-IsSound s c (confirms s.head) v (omega arith)
dequeue_step-IsSound s c spurious (confirms h) own v = elim (Bool-cases (s.head == h)) [
  | inl e ↦ rw (e, dequeue_step) (goes-IsSound s c (loads_tail h) v own)
  | inr e ↦ rw (e, dequeue_step) (goes-IsSound s c loads_head v tt)
]
dequeue_step-IsSound s c spurious (loads_tail h) own v = loads_tail-IsSound s c h own v
dequeue_step-IsSound s c spurious (loads_next h t) (a, b, e) v =
    goes-IsSound s c (decides h t (s.linked h)) v (λ l. l, e)
dequeue_step-IsSound s c spurious (decides h t next) own v =
    decide-IsSound s c h t next own v (h == t) refl
dequeue_step-IsSound s c spurious (confirms_again h) own v = elim (Bool-cases (s.head == h)) [
  | inl e ↦ rw (e, dequeue_step) (goes-IsSound s c (swings h) v own)
  | inr e ↦ rw (e, dequeue_step) (goes-IsSound s c loads_head v tt)
]
dequeue_step-IsSound s c spurious (swings h) own v =
    elim (Bool-cases ((s.head == h) && not spurious)) [
      | inl e ↦ rw (e, dequeue_step) (swings-IsSound s c h (ground (arith, e)) own v)
      | inr e ↦ rw (e, dequeue_step) (goes-IsSound s c loads_head v tt)
    ]
dequeue_step-IsSound s c spurious (takes n) own v =
    rw (own.2, dequeue_step) (takes-IsSound s c n own v)
dequeue_step-IsSound s c spurious (has_taken n) own v = goes-IsSound s c loads_head v tt
dequeue_step-IsSound s c spurious found_empty own v = goes-IsSound s c loads_head v tt
dequeue_step-IsSound s c spurious found_null own v = absurd own

step-IsSound : (s : State) (e : Event) → IsSound s → IsSound (step s e)
unfolding step
step-IsSound s (enqueues p item) v = enqueue_step-IsSound s p item (s.producer p) refl v
step-IsSound s (dequeues c spurious) v =
    dequeue_step-IsSound s c spurious (s.consumer c) (v.knows c) v

run-IsSound : (es : List Event) (s : State) → IsSound s → IsSound (run s es)
unfolding run
run-IsSound [] s v = v
run-IsSound (e ∷ es) s v = run-IsSound es (step s e) (step-IsSound s e v)

init-IsSound : IsSound init
unfolding init
init-IsSound = record {
  chain = record {
    order = omega arith;
    joined = λ n h. absurd (cc);
    waiting = λ n a b. absurd (omega arith);
    unused = λ n a. refl;
    used = λ n a b. absurd (omega arith);
  };
  joins = λ p. tt;
  knows = λ c. tt;
}

pub run-init-IsSound : (es : List Event) → IsSound (run init es)
run-init-IsSound es = run-IsSound es init init-IsSound

run-IsClaimed : (es : List Event) (s : State) → IsSound s → IsClaimed s → IsClaimed (run s es)
unfolding run
run-IsClaimed [] s v w = w
run-IsClaimed (e ∷ es) s v w =
    run-IsClaimed es (step s e) (step-IsSound s e v) (step-IsClaimed s e v w)

init-IsClaimed : IsClaimed init
unfolding init
init-IsClaimed = λ n some_node below here. absurd (omega arith)

one_of_two :
    (occ : ℕ) (here : Bool) {A : Type 0}
    → occ + one_if here ≡ 1
    → (here ≡ true → A)
    → ((occ ≡ 1) × (here ≡ false)) ⊎ ((occ ≡ 0) × (here ≡ true) × A)
one_of_two occ true e claim = inr (omega arith, refl, claim refl)
one_of_two occ false e claim = inl (omega arith, refl)

-- In every interleaving of producers and consumers, the head does not pass the tail, and each
-- node up to the tail but the first is in one of three places: beyond the head, with its data
-- set, and not handed out; up to the head, with its data set, not handed out, and with a
-- consumer, the one that moved the head to it, whose next step takes it; or up to the head,
-- without data, and handed out once.
pub node_handed_out_once :
    (es : List Event) (n : ℕ)
    → 0 < n
    → n ≤ (run init es).tail
    → let s = run init es in
      (s.head ≤ s.tail)
      × (s.head < n → (s.has_data n ≡ true) × (occurrences n s.given ≡ 0))
      × (n ≤ s.head
          → ((occurrences n s.given ≡ 1) × (s.has_data n ≡ false))
            ⊎ ((occurrences n s.given ≡ 0)
                × (s.has_data n ≡ true)
                × (s.consumer (s.owner n) ≡ takes n)))
node_handed_out_once es n some_node there =
    let v = (run-init-IsSound es).chain in
    let w = run-IsClaimed es init init-IsSound init-IsClaimed in
    (
      v.order,
      λ beyond. (v.waiting n beyond there, v.unused n beyond),
      λ passed.
          one_of_two (occurrences n (run init es).given) ((run init es).has_data n)
            (v.used n some_node passed) (w n some_node passed),
    )

-- In every interleaving no consumer that has moved the head finds the data of its node gone.
pub dequeue_has_item : (es : List Event) (c : ℕ) → ((run init es).consumer c ≢ found_null)
dequeue_has_item es c null =
    subst (λ k. Knows (run init es) c k) null ((run-init-IsSound es).knows c)

-- In every interleaving, when `dequeue` reports an empty queue, head and tail were equal at the
-- moment when that call last loaded the tail.
pub empty_was_empty :
    (es : List Event) (c : ℕ)
    → (run init es).consumer c ≡ found_empty
    → (run init es).saw_empty c ≡ true
empty_was_empty es c at = subst (λ k. Knows (run init es) c k) at ((run-init-IsSound es).knows c)
