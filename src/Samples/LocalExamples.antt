-- ===== src/Samples/LocalExamples.antt =====
-- Examples for the controller of local collections.
use smartwatch_clank.Base.{String, ◌≡◌, ◌+◌, refl, [], ◌∷◌, List, if◌then◌else◌}
use smartwatch_clank.Local.{start_collection, begin, is_busy, ready}
use smartwatch_clank.Local.Turns.{
  Controller, requests, begins, Reached, at_start, next, one_collection_at_a_time,
}

abbrev allowed : List String
allowed = "samsung" ∷ []

-- a request is accepted and its thread begins; a second request comes in meanwhile
abbrev asked : Controller
asked = record { state = (start_collection allowed "samsung" ready).1; waiting = 1; working = 0 }

abbrev at_work : Controller
at_work = record { state = begin 4 asked.state; waiting = 0; working = 1 }

asked-Reached : Reached allowed asked
unfolding start_collection
asked-Reached = next at_start (requests "samsung")

at_work-Reached : Reached allowed at_work
at_work-Reached = next asked-Reached (begins 4 0 refl)

one_collection_at_a_time_example :
    at_work.waiting + at_work.working ≡ (if is_busy at_work.state.phase then 1 else 0)
one_collection_at_a_time_example = one_collection_at_a_time allowed at_work at_work-Reached
