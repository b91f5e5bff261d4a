-- ===== src/Memory/Tests.antt =====
-- The memory pool on concrete histories.
use flowcoro.Memory.Blocks.{IsLinked}
use flowcoro.Memory.Owners.{one_holder}
use flowcoro.Memory.Rooms.{block_fits}
use flowcoro.Base.{
  ◌+◌, ◌≤◌, ◌<◌, occurrences, arith, word, ◌≡◌, refl, true, false, List, [], ◌∷◌, ◌++◌, ℕ, zero,
  suc,
}
use flowcoro.Memory.{
  Event, allocates, deallocates, continues, init, header_size, class_from, get_size_class_index,
  step, run, allocate_from, popped, malloc_step, linked, pushed, freed, pool_step, deallocate_begin,
}

-- So many steps of a thread.
abbrev goes_on : ℕ → ℕ → ℕ → List Event
goes_on t zero given = []
goes_on t (suc n) given = continues t false given ∷ goes_on t n given

-- Block 1 has been given back, and two threads try to take it at the same time; the one that is too
-- late gets block 2.
abbrev contended : List Event
contended =
    (allocates 0 40 ∷ goes_on 0 2 1)
    ++ (deallocates 0 1 ∷ goes_on 0 5 0)
    ++ (allocates 0 40 ∷ goes_on 0 2 0)
    ++ (allocates 1 33 ∷ goes_on 1 4 0)
    ++ goes_on 0 2 2

one_holder_example :
    let m = run init contended in
    (m.holders 1 ≤ 1)
    × (0 < m.holders 1 → (i : ℕ) → occurrences 1 (m.chain i) ≡ 0)
    × ((i : ℕ) → IsLinked m.next (m.head i) (m.chain i))
unfolding init run step pool_step popped malloc_step linked pushed freed deallocate_begin
    allocate_from get_size_class_index class_from
one_holder_example = one_holder contended 1 refl

block_fits_example :
    let m = run init contended in
    (m.wanted 1 ≤ m.size 1) × (header_size + m.size 1 < word → header_size + m.wanted 1 ≤ m.room 1)
unfolding init run step pool_step popped malloc_step linked pushed freed deallocate_begin
    allocate_from get_size_class_index class_from
block_fits_example = block_fits contended 1 refl (omega arith)

both_served : ((run init contended).holders 1 ≡ 1) × ((run init contended).holders 2 ≡ 1)
unfolding init run step pool_step popped malloc_step linked pushed freed deallocate_begin
    allocate_from get_size_class_index class_from
both_served = (refl, refl)

-- Blocks 1 and 2 are in the list. Thread 1 has loaded block 1 and its next, 2, when thread 0 takes
-- both and gives back 1. Then thread 1 makes 2 the head, which a client holds, and it is handed out
-- once more.
abbrev overtaken : List Event
overtaken =
    (allocates 0 40 ∷ goes_on 0 2 1)
    ++ (allocates 0 40 ∷ goes_on 0 2 2)
    ++ (deallocates 0 2 ∷ goes_on 0 5 0)
    ++ (deallocates 0 1 ∷ goes_on 0 5 0)
    ++ (allocates 1 40 ∷ goes_on 1 2 0)
    ++ (allocates 0 40 ∷ goes_on 0 4 0)
    ++ (allocates 0 40 ∷ goes_on 0 4 0)
    ++ (deallocates 0 1 ∷ goes_on 0 5 0)
    ++ goes_on 1 2 0
    ++ (allocates 2 40 ∷ goes_on 2 4 0)

handed_out_twice : ((run init overtaken).holders 2 ≡ 2) × ((run init overtaken).aba ≡ true)
unfolding init run step pool_step popped malloc_step linked pushed freed deallocate_begin
    allocate_from get_size_class_index class_from
handed_out_twice = (refl, refl)

-- What is asked for is so large that the sum with the header is 15.
abbrev too_large : ℕ
too_large = 18446744073709551615

small_room : ((run init (allocates 0 too_large ∷ continues 0 false 7 ∷ [])).room 7 ≡ 15)
unfolding init run step pool_step malloc_step allocate_from get_size_class_index class_from
small_room = refl
