-- ===== src/Hazard/Pending.antt =====
-- How many retired nodes wait to be given back.
use flowcoro.Base.{
  ℕ, zero, suc, ◌*◌, ◌≡◌, ◌≤◌, ◌<◌, refl, inl, inr, Bool, true, false, not, ◌&&◌, min, List, [],
  ◌∷◌, ◌++◌, ◌==◌, ltb, length, eq→==, if◌then◌else◌, update, arith, Bool-cases,
}
use mathlib.Core.Path.{subst}
use native.Mathlib.Nat.{mod-eq_of_lt}
use flowcoro.Hazard.{
  slots_per_thread, max_threads, threshold, available, is_nil, idle, init, Call, push, pop,
  drain_current_thread, begin_call, atomic_step, Event, registers, begins, runs, step, run, Client,
  is_idle, loads_head, publishes, begins_pop, protects, confirms, loads_next, swings, retires,
  counts, scans, releases, State, kept, scan_step, retire_step, publish_step, swing_step,
  pending_retired_count, pending_below,
}
use flowcoro.Hazard.Lists.{distinct, length-kept}
use flowcoro.Hazard.Nodes.{IsSound}
use flowcoro.Hazard.Safety.{step-IsSound, step-registered, run-registered, init-IsSound}

-- How long the list of a thread may be at each place.
abbrev Fits : ℕ → Client → Type 0
Fits l (counts p) = l ≤ suc threshold
Fits l (scans p n k found) =
    (l ≤ suc threshold) × (length found ≤ k) × (k ≤ slots_per_thread * max_threads)
Fits l _ = l ≤ threshold

Fits-most : {l : ℕ} (k : Client) → Fits l k → l ≤ suc threshold
Fits-most is_idle v = omega arith
Fits-most (loads_head a) v = omega arith
Fits-most (publishes a h) v = omega arith
Fits-most (begins_pop p) v = omega arith
Fits-most (protects h) v = omega arith
Fits-most (confirms h) v = omega arith
Fits-most (loads_next h) v = omega arith
Fits-most (swings h n) v = omega arith
Fits-most (retires h) v = omega arith
Fits-most (counts p) v = v
Fits-most (scans p n k found) v = v.0
Fits-most (releases p) v = omega arith

idle-Fits : {l : ℕ} (k : Client) → idle k ≡ true → Fits l k → l ≤ threshold
idle-Fits is_idle at v = v
idle-Fits (loads_head a) at v = v
idle-Fits (publishes a h) at v = v
idle-Fits (begins_pop p) at v = v
idle-Fits (protects h) at v = v
idle-Fits (confirms h) at v = v
idle-Fits (loads_next h) at v = v
idle-Fits (swings h n) at v = v
idle-Fits (retires h) at v = v
idle-Fits (counts p) at v = absurd (cc)
idle-Fits (scans p n k found) at v = absurd (cc)
idle-Fits (releases p) at v = v

length-append_one : (h : ℕ) (xs : List ℕ) → length (xs ++ h ∷ []) ≡ suc (length xs)
length-append_one h [] = refl
length-append_one h (x ∷ xs) = ground (arith, length-append_one h xs)

length-is_nil : (xs : List ℕ) → is_nil xs ≡ true → length xs ≤ threshold
length-is_nil [] e = omega arith
length-is_nil (x ∷ xs) e = absurd (cc)

abbrev AllFit : State → Type 0
AllFit s = (t : ℕ) → Fits (length (s.retired t)) (s.thread t)

-- The list and the place of one thread change.
Fits-moved :
    (s : State) (c : ℕ) (k : Client) (retired : ℕ → List ℕ)
    → AllFit s
    → ((t : ℕ) → (c == t) ≡ false → retired t ≡ s.retired t)
    → Fits (length (retired c)) k
    → (t : ℕ) → Fits (length (retired t)) (update s.thread c k t)
Fits-moved s c k retired v others own t = elim (Bool-cases (c == t)) [
  | inl e ↦ rw e (subst (λ x. Fits (length (retired x)) k) (ground (arith, e)) own)
  | inr e ↦ rw (e, others t e) (v t)
]

goes-AllFit :
    (s : State) (c : ℕ) (k : Client)
    → AllFit s
    → Fits (length (s.retired c)) k
    → (t : ℕ) → Fits (length (s.retired t)) (update s.thread c k t)
goes-AllFit s c k v own = Fits-moved s c k s.retired v (λ t e. refl) own

retire_step-AllFit :
    (s : State) (c h : ℕ)
    → AllFit s
    → length (s.retired c) ≤ threshold
    → AllFit (retire_step s c c h)
unfolding retire_step
retire_step-AllFit s c h v own =
    let long = length-append_one h (s.retired c) in
    elim (Bool-cases (ltb threshold (length (s.retired c ++ h ∷ [])))) [
      | inl e ↦ rw e (
          Fits-moved s c (counts h) (update s.retired c (s.retired c ++ h ∷ [])) v
            (λ t n. ground (arith, n)) (rw (eq→== c c refl) (omega (arith, long, own))))
      | inr e ↦ rw e (
          Fits-moved s c (releases h) (update s.retired c (s.retired c ++ h ∷ [])) v
            (λ t n. ground (arith, n)) (rw (eq→== c c refl) (ground (arith, e))))
    ]

scan_step-AllFit :
    (s : State) (c p n k : ℕ) (found : List ℕ)
    → distinct (s.retired c) ≡ true
    → AllFit s
    → Fits (length (s.retired c)) (scans p n k found)
    → AllFit (scan_step s c c p n k found)
unfolding scan_step
scan_step-AllFit s c p n k found once v (long, seen, most) =
    elim (Bool-cases (ltb k (slots_per_thread * min n max_threads))) [
      | inl e ↦ rw e (
          goes-AllFit s c
            (scans p n (suc k) (if s.hazard k == 0 then found else s.hazard k ∷ found)) v
            (long, ground (arith, seen), ground (arith, e)))
      | inr e ↦ rw e (
          Fits-moved s c (releases p) (update s.retired c (kept found (s.retired c))) v
            (λ t n. ground (arith, n))
            (rw (eq→== c c refl) (omega (arith, length-kept found (s.retired c) once, seen, most))))
    ]

atomic_step-AllFit :
    (s : State) (c : ℕ) (spurious : Bool) (k : Client)
    → distinct (s.retired c) ≡ true
    → AllFit s
    → Fits (length (s.retired c)) k
    → AllFit (atomic_step s c c spurious k)
unfolding atomic_step publish_step swing_step
atomic_step-AllFit s c spurious is_idle once v own = v
atomic_step-AllFit s c spurious (loads_head a) once v own =
    goes-AllFit s c (publishes a s.head) v own
atomic_step-AllFit s c spurious (publishes a h) once v own =
    elim (Bool-cases ((s.head == h) && not spurious)) [
      | inl e ↦ rw (e, atomic_step, publish_step) (goes-AllFit s c is_idle v own)
      | inr e ↦ rw (e, atomic_step, publish_step) (goes-AllFit s c (publishes a s.head) v own)
    ]
atomic_step-AllFit s c spurious (begins_pop p) once v own = elim (Bool-cases (s.head == 0)) [
  | inl e ↦ rw (e, atomic_step) (goes-AllFit s c (releases p) v own)
  | inr e ↦ rw (e, atomic_step) (goes-AllFit s c (protects s.head) v own)
]
atomic_step-AllFit s c spurious (protects h) once v own = goes-AllFit s c (confirms h) v own
atomic_step-AllFit s c spurious (confirms h) once v own = elim (Bool-cases (s.head == h)) [
  | inl e ↦ rw (e, atomic_step) (goes-AllFit s c (loads_next h) v own)
  | inr e ↦ rw (e, atomic_step) (goes-AllFit s c (begins_pop h) v own)
]
atomic_step-AllFit s c spurious (loads_next h) once v own =
    goes-AllFit s c (swings h (s.next h)) v own
atomic_step-AllFit s c spurious (swings h n) once v own =
    elim (Bool-cases ((s.head == h) && not spurious)) [
      | inl e ↦ rw (e, atomic_step, swing_step) (goes-AllFit s c (retires h) v own)
      | inr e ↦ rw (e, atomic_step, swing_step) (goes-AllFit s c (begins_pop h) v own)
    ]
atomic_step-AllFit s c spurious (retires h) once v own = retire_step-AllFit s c h v own
atomic_step-AllFit s c spurious (counts p) once v own = elim (Bool-cases (is_nil (s.retired c))) [
  | inl e ↦ rw (e, atomic_step) (goes-AllFit s c (releases p) v (length-is_nil (s.retired c) e))
  | inr e ↦
      rw (e, atomic_step)
        (goes-AllFit s c (scans p s.registered 0 []) v (own, omega arith, omega arith))
]
atomic_step-AllFit s c spurious (scans p n k found) once v own =
    scan_step-AllFit s c p n k found once v own
atomic_step-AllFit s c spurious (releases p) once v own = elim (Bool-cases (p == 0)) [
  | inl e ↦ rw (e, atomic_step) (goes-AllFit s c is_idle v own)
  | inr e ↦ rw (e, atomic_step) (goes-AllFit s c is_idle v own)
]

begin_call-AllFit :
    (s : State) (c : ℕ) (call : Call)
    → idle (s.thread c) ≡ true
    → AllFit s
    → AllFit (begin_call s c call)
unfolding begin_call
begin_call-AllFit s c (push a) at v = elim (Bool-cases (available (s.status a) && not (a == 0))) [
  | inl e ↦ rw (e, begin_call) (goes-AllFit s c (loads_head a) v (idle-Fits (s.thread c) at (v c)))
  | inr e ↦ rw (e, begin_call) v
]
begin_call-AllFit s c pop at v = goes-AllFit s c (begins_pop 0) v (idle-Fits (s.thread c) at (v c))
begin_call-AllFit s c drain_current_thread at v =
    goes-AllFit s c (counts 0) v (omega (arith, idle-Fits (s.thread c) at (v c)))

step-AllFit :
    (s : State) (e : Event) → s.registered ≤ max_threads → IsSound s → AllFit s → AllFit (step s e)
unfolding step
step-AllFit s registers few w v = v
step-AllFit s (begins c call) few w v =
    elim (Bool-cases (ltb c s.registered && idle (s.thread c))) [
      | inl e ↦ rw (e, step) (begin_call-AllFit s c call (ground (arith, e)) v)
      | inr e ↦ rw (e, step) v
    ]
step-AllFit s (runs c spurious) few w v = elim (Bool-cases (ltb c s.registered)) [
  | inl e ↦
      let there : c < s.registered = ground (arith, e) in
      rw (e, step, mod-eq_of_lt {n = c} {m = max_threads} (omega (arith, there, few)))
        (atomic_step-AllFit s c spurious (s.thread c) (w.once c) v (v c))
  | inr e ↦ rw (e, step) v
]

run-AllFit :
    (es : List Event) (s : State)
    → (run s es).registered ≤ max_threads
    → IsSound s
    → AllFit s
    → AllFit (run s es)
unfolding run
run-AllFit [] s few w v = v
run-AllFit (e ∷ es) s few w v =
    let fewer : s.registered ≤ max_threads =
      omega (arith, few, step-registered s e, run-registered es (step s e)) in
    run-AllFit es (step s e) few (step-IsSound s e fewer w) (step-AllFit s e fewer w v)

pending_below-bounded :
    (retired : ℕ → List ℕ) (t : ℕ)
    → ((u : ℕ) → length (retired u) ≤ suc threshold)
    → pending_below retired t ≤ t * suc threshold
pending_below-bounded retired zero v = omega arith
pending_below-bounded retired (suc t) v = omega (arith, v t, pending_below-bounded retired t v)

-- In every interleaving of at most 128 threads no thread's list of retired nodes is longer than
-- 1,025, and `pending_retired_count` is at most 128 times that.
pub pending_bounded :
    (es : List Event)
    → let s = run init es in
      s.registered ≤ max_threads
      → ((t : ℕ) → length (s.retired t) ≤ suc threshold)
        × (pending_retired_count s ≤ max_threads * suc threshold)
unfolding init pending_retired_count
pending_bounded es few =
    let all = run-AllFit es init few init-IsSound (λ t. omega arith) in
    let each = λ (t : ℕ). Fits-most ((run init es).thread t) (all t) in
    (
      each,
      omega (
        arith,
        few,
        pending_below-bounded (run init es).retired (min (run init es).registered max_threads) each,
      ),
    )
