-- ===== src/Monitor/Tests.antt =====
-- The monitor on concrete histories.
use flowcoro.Base.{ℕ, ◌+◌, ◌≤◌, refl, Bool, true, false, List, [], ◌∷◌}
use flowcoro.Monitor.{
  Thresholds, Event, records, sets_callback, checks, connection_created, connection_activated,
  request_start,
}
use flowcoro.Monitor.Race.{race, race_step, thread_step, try_round, start, IsOwned, max_of_race}

abbrev limits : Thresholds
limits = record {
  max_wait_time = 5000;
  max_execution_time = 10000;
  min_success = 95;
  success_scale = 100;
  max_failed_connections = 5;
  alert_interval = 300;
}

-- The one connection is in use, and no request has succeeded.
abbrev busy : List Event
busy =
    sets_callback
    ∷ records connection_created
    ∷ records connection_activated
    ∷ records request_start
    ∷ checks 10
    ∷ checks 20
    ∷ checks 400
    ∷ []

-- Threads 0 and 1 raise the maximum to 7 and to 9; the exchange of thread 0 fails once.
abbrev waited : ℕ → ℕ
waited i = i + i + 7

abbrev schedule : List (ℕ × Bool)
schedule =
    (0, false) ∷ (1, false) ∷ (0, true) ∷ (1, false) ∷ (0, false) ∷ (0, false) ∷ (1, false) ∷ []

max_of_race_example :
    let c = race waited (start 3) schedule in (3 ≤ c.maximum) × (7 ≤ c.maximum) × IsOwned waited 3 c
unfolding race race_step thread_step try_round
max_of_race_example = max_of_race waited 3 schedule 0 refl
