-- ===== src/Queue/Claims.antt =====
-- A node whose number the head has reached and whose data is still there has a consumer that is to
-- take it (`dequeue` of include/flowcoro/lockfree.h, from the exchange of `head` to that of `data`).
use flowcoro.Base.{
  ℕ, suc, ◌≡◌, ◌≢◌, ◌≤◌, ◌<◌, refl, ap, ◌∙◌, Bool, true, false, not, ◌&&◌, ◌∷◌, ◌==◌, if◌then◌else◌,
  update, arith, Bool-cases, inl, inr,
}
use flowcoro.Queue.{
  Producer, is_idle, links, Consumer, loads_head, confirms, loads_tail, loads_next, decides,
  confirms_again, swings, takes, has_taken, found_empty, found_null, State, enqueue_step, goes,
  decide, dequeue_step, Event, enqueues, dequeues, step,
}
use flowcoro.Queue.Nodes.{Knows, IsSound}

abbrev pub IsClaimed : State → Type 0
IsClaimed s = (n : ℕ) → 0 < n → n ≤ s.head → s.has_data n ≡ true → s.consumer (s.owner n) ≡ takes n

-- The node that the consumer is to take, 0 if there is none.
abbrev to_take : Consumer → ℕ
to_take (takes n) = n
to_take _ = 0

-- A consumer that is not to take this node is not its owner.
other_owner :
    (s : State) (c o n : ℕ) → to_take (s.consumer c) ≢ n → s.consumer o ≡ takes n → (c == o) ≡ false
other_owner s c o n ne at = elim (Bool-cases (c == o)) [
  | inl e ↦
      let same : c ≡ o = ground (arith, e) in
      absurd (ne (ap (λ x. to_take (s.consumer x)) same ∙ ap to_take at))
  | inr e ↦ e
]

unchanged :
    (s : State) (c : ℕ) (k : Consumer) (n : ℕ)
    → to_take (s.consumer c) ≢ n
    → s.consumer (s.owner n) ≡ takes n
    → update s.consumer c k (s.owner n) ≡ takes n
unchanged s c k n ne at = ground (arith, other_owner s c (s.owner n) n ne at, at)

goes-IsClaimed :
    (s : State) (c : ℕ) (k : Consumer)
    → to_take (s.consumer c) ≡ 0
    → IsClaimed s
    → IsClaimed (goes s c k)
goes-IsClaimed s c k none v =
    λ n some_node below here. unchanged s c k n (λ e. omega arith) (v n some_node below here)

swings-IsClaimed :
    (s : State) (c h : ℕ)
    → s.head ≡ h
    → to_take (s.consumer c) ≡ 0
    → IsClaimed s
    → IsClaimed
        (goes (record s { head = suc h; owner = update s.owner (suc h) c }) c (takes (suc h)))
swings-IsClaimed s c h at none v = λ n some_node below here. elim (Bool-cases (suc h == n)) [
  | inl e ↦ ground (arith, e)
  | inr e ↦
      let kept =
        unchanged s c (takes (suc h)) n (λ e. omega arith)
          (v n some_node (ground (arith, e, below, at)) here) in
      rw e kept
]

takes-IsClaimed :
    (s : State) (c n : ℕ)
    → s.consumer c ≡ takes n
    → IsClaimed s
    → IsClaimed (
        goes
          (record s { has_data = update s.has_data n false; given = n ∷ s.given })
          c
          (has_taken n))
takes-IsClaimed s c n at v = λ m some_node below here. elim (Bool-cases (n == m)) [
  | inl e ↦ absurd (ground (arith, e, here))
  | inr e ↦
      unchanged s c (has_taken n) m (λ same. ground (arith, e, ap to_take at, same))
        (v m some_node below (ground (arith, e, here)))
]

either : (b : Bool) (x y : State) → IsClaimed x → IsClaimed y → IsClaimed (if b then x else y)
either true x y p q = p
either false x y p q = q

decide-IsClaimed :
    (s : State) (c h t : ℕ) (next : Bool)
    → to_take (s.consumer c) ≡ 0
    → IsClaimed s
    → IsClaimed (decide s c h t next)
unfolding decide
decide-IsClaimed s c h t next none v =
    either (h == t)
      (if next
        then goes (record s { tail = if s.tail == t then suc h else s.tail }) c loads_head
        else goes s c found_empty)
      (if next then goes s c (confirms_again h) else goes s c loads_head)
      (either next (goes (record s { tail = if s.tail == t then suc h else s.tail }) c loads_head)
        (goes s c found_empty) (goes-IsClaimed s c loads_head none v)
        (goes-IsClaimed s c found_empty none v))
      (either next (goes s c (confirms_again h)) (goes s c loads_head)
        (goes-IsClaimed s c (confirms_again h) none v) (goes-IsClaimed s c loads_head none v))

dequeue_step-IsClaimed :
    (s : State) (c : ℕ) (spurious : Bool) (k : Consumer)
    → s.consumer c ≡ k
    → Knows s c k
    → IsClaimed s
    → IsClaimed (dequeue_step s c spurious k)
unfolding dequeue_step
dequeue_step-IsClaimed s c spurious loads_head at own v =
    goes-IsClaimed s c (confirms s.head) (ap to_take at) v
dequeue_step-IsClaimed s c spurious (confirms h) at own v =
    goes-IsClaimed s c (if s.head == h then loads_tail h else loads_head) (ap to_take at) v
dequeue_step-IsClaimed s c spurious (loads_tail h) at own v =
    goes-IsClaimed s c (loads_next h s.tail) (ap to_take at) v
dequeue_step-IsClaimed s c spurious (loads_next h t) at own v =
    goes-IsClaimed s c (decides h t (s.linked h)) (ap to_take at) v
dequeue_step-IsClaimed s c spurious (decides h t next) at own v =
    decide-IsClaimed s c h t next (ap to_take at) v
dequeue_step-IsClaimed s c spurious (confirms_again h) at own v =
    goes-IsClaimed s c (if s.head == h then swings h else loads_head) (ap to_take at) v
dequeue_step-IsClaimed s c spurious (swings h) at own v =
    elim (Bool-cases ((s.head == h) && not spurious)) [
      | inl e ↦ rw (e, dequeue_step) (swings-IsClaimed s c h (ground (arith, e)) (ap to_take at) v)
      | inr e ↦ rw (e, dequeue_step) (goes-IsClaimed s c loads_head (ap to_take at) v)
    ]
dequeue_step-IsClaimed s c spurious (takes n) at own v =
    rw (own.2, dequeue_step) (takes-IsClaimed s c n at v)
dequeue_step-IsClaimed s c spurious (has_taken n) at own v =
    goes-IsClaimed s c loads_head (ap to_take at) v
dequeue_step-IsClaimed s c spurious found_empty at own v =
    goes-IsClaimed s c loads_head (ap to_take at) v
dequeue_step-IsClaimed s c spurious found_null at own v = absurd own

-- A node that is put in is beyond the head.
enqueue_step-IsClaimed :
    (s : State) (p item : ℕ) (k : Producer)
    → s.head ≤ s.tail
    → IsClaimed s
    → IsClaimed (enqueue_step s p item k)
unfolding enqueue_step
enqueue_step-IsClaimed s p item is_idle order v =
    λ n some_node below here. v n some_node below (ground (arith, order, below, here))
enqueue_step-IsClaimed s p item (links m) order v = v

pub step-IsClaimed : (s : State) (e : Event) → IsSound s → IsClaimed s → IsClaimed (step s e)
unfolding step
step-IsClaimed s (enqueues p item) sound v =
    enqueue_step-IsClaimed s p item (s.producer p) sound.chain.order v
step-IsClaimed s (dequeues c spurious) sound v =
    dequeue_step-IsClaimed s c spurious (s.consumer c) refl (sound.knows c) v
