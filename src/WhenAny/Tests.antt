-- ===== src/WhenAny/Tests.antt =====
-- Two tasks of which one is a clock.
use flowcoro.Base.{ℕ, List, [], ◌∷◌, if◌then◌else◌, ◌==◌}
use flowcoro.WhenAny.{Any, empty, value, Event, selects, calls, resumes}

abbrev outcomes : ℕ → Any
outcomes i = if i == 0 then value 42 else empty

-- The caller suspends before task 0 ends; task 1 comes too late.
abbrev usual : List Event
usual =
    calls
    ∷ calls
    ∷ calls
    ∷ selects 0
    ∷ selects 0
    ∷ selects 1
    ∷ selects 0
    ∷ selects 0
    ∷ resumes
    ∷ resumes
    ∷ []
