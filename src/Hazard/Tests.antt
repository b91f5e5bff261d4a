-- ===== src/Hazard/Tests.antt =====
-- Two threads that pop the same node, and a record that two threads share.
use flowcoro.Base.{
  ℕ, zero, suc, ◌*◌, ◌≡◌, ◌≤◌, refl, true, false, ◌&&◌, List, [], ◌∷◌, ◌++◌, ◌==◌, has, length,
  arith,
}
use flowcoro.Hazard.{
  max_threads, threshold, init, Event, registers, begins, run, step, begin_call, push, pop,
  drain_current_thread, atomic_step, publish_step, swing_step, retire_step, scan_step, is_free,
  is_retired, is_idle, loads_next, pending_retired_count,
}
use flowcoro.Hazard.Nodes.{in_use, links}
use flowcoro.Hazard.Safety.{reads_live_block, no_aba, stack_of_blocks}
use flowcoro.Hazard.Pending.{pending_bounded}
use flowcoro.Hazard.Drain.{alone, held, drain_gives_back}

abbrev pushed : List Event
pushed = registers ∷ registers ∷ begins 0 (push 7) ∷ alone 0 2

-- Client 1 has confirmed the node when thread 0 pops and retires it, and looks for nodes to give back.
abbrev protected : List Event
protected =
    pushed
    ++ (begins 1 pop ∷ alone 1 3)
    ++ (begins 0 pop ∷ alone 0 7)
    ++ (begins 0 drain_current_thread ∷ alone 0 7)

still_there : (run init protected).status 7 ≡ is_retired 0
unfolding run step init begin_call atomic_step publish_step swing_step retire_step scan_step
still_there = refl

reads_live_block_example : in_use ((run init protected).status 7) ≡ true
unfolding run step init begin_call atomic_step publish_step swing_step retire_step scan_step
reads_live_block_example = reads_live_block protected 1 (omega arith) refl

abbrev ready : List Event
ready = pushed ++ (begins 1 pop ∷ alone 1 4)

no_aba_example : (run init ready).next (run init ready).head ≡ 0
unfolding run step init begin_call atomic_step publish_step swing_step retire_step scan_step
no_aba_example = no_aba ready 1 7 0 (omega arith) refl refl

stack_of_blocks_example : let s = run init ready in links s.next s.head s.chain ≡ true
unfolding run step init begin_call atomic_step publish_step swing_step retire_step scan_step
stack_of_blocks_example = stack_of_blocks ready (omega arith)

pending_bounded_example :
    let s = run init protected in
    ((t : ℕ) → length (s.retired t) ≤ suc threshold)
    × (pending_retired_count s ≤ max_threads * suc threshold)
unfolding run step init begin_call atomic_step publish_step swing_step retire_step scan_step
pending_bounded_example = pending_bounded protected (omega arith)

drain_gives_back_example :
    let s = run init protected in
    let r = run s (begins 0 drain_current_thread ∷ alone 0 7) in
    (r.thread 0 ≡ is_idle)
    × ((a : ℕ)
        → (a == 0) ≡ false
        → has a (r.retired 0) ≡ has a (s.retired 0) && held s.hazard 0 4 a)
unfolding run step init begin_call atomic_step publish_step swing_step retire_step scan_step
drain_gives_back_example = drain_gives_back (run init protected) 0 (omega arith) (omega arith) refl

abbrev many : ℕ → List Event
many zero = []
many (suc n) = registers ∷ many n

-- Client 128 has the record of thread 0: its own pop overwrites the hazard, and the node through
-- which thread 0 reads is given back.
abbrev shared : List Event
shared =
    many 129
    ++ (begins 1 (push 7) ∷ alone 1 2)
    ++ (begins 0 pop ∷ alone 0 3)
    ++ (begins 1 pop ∷ alone 1 7)
    ++ (begins 128 (push 9) ∷ alone 128 2)
    ++ (begins 128 pop ∷ alone 128 7)
    ++ (begins 1 drain_current_thread ∷ alone 1 259)

shared_record_frees : (run init shared).status 7 ≡ is_free
unfolding run step init begin_call atomic_step publish_step swing_step retire_step scan_step
shared_record_frees = refl

shared_record_reads : (run init shared).thread 0 ≡ loads_next 7
unfolding run step init begin_call atomic_step publish_step swing_step retire_step scan_step
shared_record_reads = refl
