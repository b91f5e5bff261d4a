-- ===== src/Hazard/Safety.antt =====
-- No thread reads through a block that was given back, whatever the interleaving.
use flowcoro.Base.{
  ℕ, suc, ◌≡◌, ◌≤◌, ◌<◌, refl, inl, inr, Bool, true, false, ◌&&◌, List, [], ◌∷◌, ◌==◌, ltb, has,
  arith, Bool-cases,
}
use mathlib.Core.Path.{subst}
use native.Mathlib.Nat.{mod-eq_of_lt}
use flowcoro.Hazard.{
  max_threads, is_retired, thread_id, init, Call, begin_call, idle, atomic_step, Event, registers,
  begins, runs, step, run, Client, swings, State, scan_step, retire_step, publish_step, swing_step,
}
use flowcoro.Hazard.Lists.{distinct}
use flowcoro.Hazard.Nodes.{in_use, links, uses, reader, Knows-later, Knows, IsSound}
use flowcoro.Hazard.Steps.{atomic_step-IsSound, begin_call-IsSound}

atomic_step-registered :
    (s : State) (c i : ℕ) (spurious : Bool) (k : Client)
    → (atomic_step s c i spurious k).registered ≡ s.registered
unfolding atomic_step publish_step swing_step retire_step scan_step
atomic_step-registered s c i spurious k = ground arith

begin_call-registered :
    (s : State) (c : ℕ) (call : Call) → (begin_call s c call).registered ≡ s.registered
unfolding begin_call
begin_call-registered s c call = ground arith

pub step-registered : (s : State) (e : Event) → s.registered ≤ (step s e).registered
unfolding step
step-registered s registers = omega arith
step-registered s (begins c call) = ground (arith, begin_call-registered s c call)
step-registered s (runs c spurious) =
    ground (arith, atomic_step-registered s c (thread_id c) spurious (s.thread c))

pub run-registered : (es : List Event) (s : State) → s.registered ≤ (run s es).registered
unfolding run
run-registered [] s = omega arith
run-registered (e ∷ es) s = omega (arith, step-registered s e, run-registered es (step s e))

registers-IsSound : (s : State) → IsSound s → IsSound (record s { registered = suc s.registered })
registers-IsSound s v = record {
  linked = v.linked;
  chain_linked = v.chain_linked;
  retired_status = v.retired_status;
  once = v.once;
  knows = λ d.
      Knows-later {s = s} {r = record s { registered = suc s.registered }} {d = d} (s.thread d) refl
        (record {
          more = omega arith;
          hazard_same = refl;
          owned_stays = λ a h. h;
          taken_stays = λ a h. h;
          used_stays = λ h z u i. (i, refl);
        })
        (v.knows d);
  covers = v.covers;
}

pub step-IsSound :
    (s : State) (e : Event) → s.registered ≤ max_threads → IsSound s → IsSound (step s e)
unfolding step
step-IsSound s registers few v = registers-IsSound s v
step-IsSound s (begins c call) few v = elim (Bool-cases (ltb c s.registered && idle (s.thread c))) [
  | inl e ↦ rw (e, step) (begin_call-IsSound s c call v)
  | inr e ↦ rw (e, step) v
]
step-IsSound s (runs c spurious) few v = elim (Bool-cases (ltb c s.registered)) [
  | inl e ↦
      let there : c < s.registered = ground (arith, e) in
      rw (e, step, mod-eq_of_lt {n = c} {m = max_threads} (omega (arith, there, few)))
        (atomic_step-IsSound s c spurious (s.thread c) few there refl (v.knows c) v)
  | inr e ↦ rw (e, step) v
]

run-IsSound :
    (es : List Event) (s : State)
    → (run s es).registered ≤ max_threads
    → IsSound s
    → IsSound (run s es)
unfolding run
run-IsSound [] s few v = v
run-IsSound (e ∷ es) s few v =
    run-IsSound es (step s e) few
      (step-IsSound s e (omega (arith, few, step-registered s e, run-registered es (step s e))) v)

pub init-IsSound : IsSound init
unfolding init
init-IsSound = record {
  linked = refl;
  chain_linked = λ a h. absurd (cc);
  retired_status = λ t a h. absurd (cc);
  once = λ t. refl;
  knows = λ c. tt;
  covers = λ t d. tt;
}

run-init-IsSound :
    (es : List Event) → (run init es).registered ≤ max_threads → IsSound (run init es)
run-init-IsSound es few = run-IsSound es init few init-IsSound

-- In every interleaving of at most 128 threads that push, pop, retire and scan with blocks that
-- the allocator gives out again: a thread that is to read or to exchange through a node has a
-- node whose block is published and was not given back.
pub reads_live_block :
    (es : List Event) (c : ℕ)
    → let s = run init es in
      s.registered ≤ max_threads
      → (uses (s.thread c) == 0) ≡ false
      → in_use (s.status (uses (s.thread c))) ≡ true
reads_live_block es c few reading =
    let v = run-init-IsSound es few in
    let (_, _, live) = reader (run init es) c ((run init es).thread c) (v.knows c) reading in live

-- In every interleaving of at most 128 threads, though blocks are used again: if `pop` finds at
-- its exchange the head that it loaded, the node that it loaded as the next one still is the
-- head's next.
pub no_aba :
    (es : List Event) (c h n : ℕ)
    → let s = run init es in
      s.registered ≤ max_threads → s.thread c ≡ swings h n → s.head ≡ h → s.next s.head ≡ n
no_aba es c h n few at same =
    let v = run-init-IsSound es few in
    let (_, _, _, _, x) = subst (Knows (run init es) c) at (v.knows c) in rw same x

-- In every interleaving of at most 128 threads, the blocks that `next` links from the head, each
-- once, are those of the stack to which each successful exchange of `push` adds its node and from
-- which each one of `pop` takes the first.
pub stack_of_blocks :
    (es : List Event)
    → let s = run init es in s.registered ≤ max_threads → links s.next s.head s.chain ≡ true
stack_of_blocks es few = (run-init-IsSound es few).linked

-- In every interleaving of at most 128 threads, no list of retired nodes has a node twice, and a
-- node in the list of a thread was retired by that thread, so no two lists share one.
pub freed_once :
    (es : List Event)
    → let s = run init es in
      s.registered ≤ max_threads
      → ((t : ℕ) → distinct (s.retired t) ≡ true)
        × ((t a : ℕ) → has a (s.retired t) ≡ true → s.status a ≡ is_retired t)
freed_once es few = let v = run-init-IsSound es few in (v.once, v.retired_status)
