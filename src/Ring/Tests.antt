-- ===== src/Ring/Tests.antt =====
-- The rings on concrete inputs.
use flowcoro.Base.{ℕ, ◌≤◌, ◌≡◌, true, false, none, some, List, [], ◌∷◌, arith}
use flowcoro.Fifo
use flowcoro.Fifo.{Op, puts, gets, puts_all, gets_up_to, taken, got, taken_all, got_all}
use flowcoro.Ring.Cache
use flowcoro.Ring.Cache.{Cache}
use flowcoro.Ring.Trace.{cache_run, cache_run_refines}

in_word : 2 ≤ 64
in_word = omega arith

abbrev history : List (Op ℕ)
history = puts 1 ∷ puts_all (2 ∷ 3 ∷ 4 ∷ []) ∷ gets ∷ puts 5 ∷ puts 6 ∷ gets_up_to 9 ∷ gets ∷ []

cache_run_refines_example :
    cache_run 0 2 (Cache.init 0 2) history
    ≡ taken true
      ∷ taken_all 2
      ∷ got (some 1)
      ∷ taken true
      ∷ taken false
      ∷ got_all (2 ∷ 3 ∷ 5 ∷ [])
      ∷ got none
      ∷ []
unfolding Fifo.run
cache_run_refines_example = cache_run_refines 0 2 in_word history
