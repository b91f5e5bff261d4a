-- ===== src/Hazard/Steps.antt =====
-- Each step of a thread keeps what holds of the blocks.
use flowcoro.Base.{
  ℕ, ◌*◌, ◌≡◌, ◌≤◌, ◌<◌, refl, inl, inr, Bool, true, false, not, ◌&&◌, List, [], ◌∷◌, ◌++◌, ◌==◌,
  ltb, min, length, update, arith, Bool-cases,
}
use mathlib.Core.Path.{subst}
use flowcoro.Hazard.{
  slots_per_thread, max_threads, threshold, Status, is_free, is_owned, is_linked, is_taken,
  is_retired, available, is_nil, Call, push, pop, drain_current_thread, begin_call, atomic_step,
  Client, is_idle, loads_head, publishes, begins_pop, protects, confirms, loads_next, swings,
  retires, counts, scans, releases, State, goes, scan_step, retire_step, publish_step, swing_step,
}
use flowcoro.Hazard.Nodes.{
  reader, Covers-moved, Knows, IsSound, moved, covered, rests-IsSound, goes-IsSound, head_linked,
}
use flowcoro.Hazard.Publishing.{published-IsSound, unpublished-IsSound, swung-IsSound}
use flowcoro.Hazard.Scans.{hazard-IsSound, retired-IsSound, reclaimed-IsSound, scanned-IsSound}

publish_step-IsSound :
    (s : State) (c : ℕ) (spurious : Bool) (a h : ℕ)
    → IsSound s
    → Knows s c (publishes a h)
    → IsSound (publish_step s c spurious a h)
unfolding publish_step
publish_step-IsSound s c spurious a h v own = elim (Bool-cases ((s.head == h) && not spurious)) [
  | inl e ↦ rw e (
      subst
        (λ x. IsSound (
          goes
            (record s {
              head = a;
              next = update s.next a x;
              status = update s.status a is_linked;
              chain = a ∷ s.chain;
            })
            c is_idle))
        (ground (arith, e)) (published-IsSound s c a v own))
  | inr e ↦ rw e (unpublished-IsSound s c a h v own)
]

swing_step-IsSound :
    (s : State) (c : ℕ) (spurious : Bool) (h n : ℕ)
    → IsSound s
    → Knows s c (swings h n)
    → IsSound (swing_step s c spurious h n)
unfolding swing_step
swing_step-IsSound s c spurious h n v own = elim (Bool-cases ((s.head == h) && not spurious)) [
  | inl e ↦ rw e (swung-IsSound s c h n v own (ground (arith, e)))
  | inr e ↦ rw e (rests-IsSound s c (begins_pop h) v tt refl (λ d. tt))
]

retire_step-IsSound :
    (s : State) (c h : ℕ) → IsSound s → Knows s c (retires h) → IsSound (retire_step s c c h)
unfolding retire_step
retire_step-IsSound s c h v own =
    elim (Bool-cases (ltb threshold (length (s.retired c ++ h ∷ [])))) [
      | inl e ↦ rw e (retired-IsSound s c h (counts h) v own refl (λ r. tt) (λ d. tt))
      | inr e ↦ rw e (retired-IsSound s c h (releases h) v own refl (λ r. tt) (λ d. tt))
    ]

scan_step-IsSound :
    (s : State) (c p n k : ℕ) (found : List ℕ)
    → s.registered ≤ max_threads
    → IsSound s
    → s.thread c ≡ scans p n k found
    → IsSound (scan_step s c c p n k found)
unfolding scan_step
scan_step-IsSound s c p n k found few v at =
    elim (Bool-cases (ltb k (slots_per_thread * min n max_threads))) [
      | inl e ↦ rw e (scanned-IsSound s c p n k found v at)
      | inr e ↦
          rw e (reclaimed-IsSound s c p n k found v at (λ d a b. ground (arith, e, a, b, few)))
    ]

-- The confirmed node is linked, so no scan has it in its list.
confirmed-IsSound :
    (s : State) (c h : ℕ)
    → c < s.registered
    → IsSound s
    → Knows s c (confirms h)
    → s.head ≡ h
    → IsSound (goes s c (loads_next h))
confirmed-IsSound s c h there v (z, e) at =
    let linked : s.status h ≡ is_linked = rw (← at) (head_linked s v (rw at z)) in
    goes-IsSound s c (loads_next h) v (z, e, ground (arith, linked), there)
      (λ t n r. absurd (ground (arith, v.retired_status t h r, linked))) (λ d. tt)

-- A scan starts at the first slot, after every reader of a retired node has set its own.
started-IsSound : (s : State) (c p : ℕ) → IsSound s → IsSound (goes s c (scans p s.registered 0 []))
started-IsSound s c p v = rests-IsSound s c (scans p s.registered 0 []) v tt refl (λ d.
    Covers-moved s.thread c d (scans p s.registered 0 []) (scans p s.registered 0 []) (s.retired c)
      refl (λ z r. let (_, b, _) = reader s d (s.thread d) (v.knows d) z in inr (omega arith, b)))

pub atomic_step-IsSound :
    (s : State) (c : ℕ) (spurious : Bool) (k : Client)
    → s.registered ≤ max_threads
    → c < s.registered
    → s.thread c ≡ k
    → Knows s c k
    → IsSound s
    → IsSound (atomic_step s c c spurious k)
unfolding atomic_step
atomic_step-IsSound s c spurious is_idle few there at own v = v
atomic_step-IsSound s c spurious (loads_head a) few there at own v =
    rests-IsSound s c (publishes a s.head) v own refl (λ d. tt)
atomic_step-IsSound s c spurious (publishes a h) few there at own v =
    publish_step-IsSound s c spurious a h v own
atomic_step-IsSound s c spurious (begins_pop p) few there at own v =
    elim (Bool-cases (s.head == 0)) [
      | inl e ↦ rw (e, atomic_step) (rests-IsSound s c (releases p) v tt refl (λ d. tt))
      | inr e ↦ rw (e, atomic_step) (rests-IsSound s c (protects s.head) v e refl (λ d. tt))
    ]
atomic_step-IsSound s c spurious (protects h) few there at own v =
    hazard-IsSound s c h (confirms h) v refl (own, ground arith) (λ d. tt)
atomic_step-IsSound s c spurious (confirms h) few there at own v = elim (Bool-cases (s.head == h)) [
  | inl e ↦ rw (e, atomic_step) (confirmed-IsSound s c h there v own (ground (arith, e)))
  | inr e ↦ rw (e, atomic_step) (rests-IsSound s c (begins_pop h) v tt refl (λ d. tt))
]
atomic_step-IsSound s c spurious (loads_next h) few there at (z, e, u, b) v =
    goes-IsSound s c (swings h (s.next h)) v (z, e, u, b, refl) (λ t n r. rw at refl) (λ d. tt)
atomic_step-IsSound s c spurious (swings h n) few there at own v =
    swing_step-IsSound s c spurious h n v own
atomic_step-IsSound s c spurious (retires h) few there at own v = retire_step-IsSound s c h v own
atomic_step-IsSound s c spurious (counts p) few there at own v =
    elim (Bool-cases (is_nil (s.retired c))) [
      | inl e ↦ rw (e, atomic_step) (rests-IsSound s c (releases p) v tt refl (λ d. tt))
      | inr e ↦ rw (e, atomic_step) (started-IsSound s c p v)
    ]
atomic_step-IsSound s c spurious (scans p n k found) few there at own v =
    scan_step-IsSound s c p n k found few v at
atomic_step-IsSound s c spurious (releases p) few there at own v = elim (Bool-cases (p == 0)) [
  | inl e ↦ rw (e, atomic_step) (rests-IsSound s c is_idle v tt refl (λ d. tt))
  | inr e ↦ rw (e, atomic_step) (hazard-IsSound s c 0 is_idle v refl tt (λ d. tt))
]

-- The allocator gives out a free block.
allocated-IsSound :
    (s : State) (c a : ℕ)
    → s.status a ≡ is_free
    → (a == 0) ≡ false
    → IsSound s
    → IsSound (goes (record s { status = update s.status a (is_owned c) }) c (loads_head a))
allocated-IsSound s c a free z v = record {
  linked = v.linked;
  chain_linked = λ b e. ground (arith, v.chain_linked b e, free);
  retired_status = λ t b e. ground (arith, v.retired_status t b e, free);
  once = v.once;
  knows =
      moved s (record s { status = update s.status a (is_owned c) }) c (loads_head a) v
        (ground arith, z)
        (λ d e. record {
          more = omega arith;
          hazard_same = refl;
          owned_stays = λ b h. ground (arith, h, free);
          taken_stays = λ b h. ground (arith, h, free);
          used_stays = λ h n u i. (ground (arith, i, free), refl);
        });
  covers = covered s c (loads_head a) s.retired v (λ t e. refl) (λ t n. absurd (cc)) (λ d. tt);
}

pub begin_call-IsSound :
    (s : State) (c : ℕ) (call : Call) → IsSound s → IsSound (begin_call s c call)
unfolding begin_call
begin_call-IsSound s c (push a) v = elim (Bool-cases (available (s.status a) && not (a == 0))) [
  | inl e ↦
      rw (e, begin_call)
        (allocated-IsSound s c a (is_free_at (s.status a) (ground (arith, e))) (ground (arith, e))
          v)
  | inr e ↦ rw (e, begin_call) v
]
  where
    is_free_at : (x : Status) → available x ≡ true → x ≡ is_free
    is_free_at is_free h = refl
    is_free_at (is_owned t) h = absurd (cc)
    is_free_at is_linked h = absurd (cc)
    is_free_at (is_taken t) h = absurd (cc)
    is_free_at (is_retired t) h = absurd (cc)
begin_call-IsSound s c pop v = rests-IsSound s c (begins_pop 0) v tt refl (λ d. tt)
begin_call-IsSound s c drain_current_thread v = rests-IsSound s c (counts 0) v tt refl (λ d. tt)
