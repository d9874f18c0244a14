-- ===== src/Authguard/Tests.antt =====
-- A run of the guard, and the theorems about it.
use dev_team.Prelude.{none, ◌≤◌, ◌≡◌, refl, some, List, [], ◌∷◌, length, filter, arith}
use dev_team.Prelude.Dict.{get, set, remove}
use dev_team.Authguard.{
  FailedAuthTracker, prune, make_room, new_entry, with_entry, add_time, record_failure, last_of,
  remaining_of, answer, keep_entry, look_up, is_locked_out, record_success, Event, fails, asks,
  succeeds, apply_event, run, failed_times, count_failures,
}
use dev_team.Authguard.Window.{is_recent}
use dev_team.Authguard.Lockout.{due, is_locked_out-run}
use dev_team.Authguard.Size.{run-size}

abbrev guard : FailedAuthTracker
guard = record {
  threshold = 2;
  window_seconds = 60;
  lockout_seconds = 60;
  max_tracked_sources = 4;
  failures = [];
}

abbrev attempts : List Event
attempts = fails "a" 0 ∷ fails "b" 1 ∷ succeeds "b" ∷ fails "a" 10 ∷ asks "a" 20 ∷ []

abbrev after_attempts : FailedAuthTracker
after_attempts = record guard { failures = ("a", 0 ∷ 10 ∷ []) ∷ [] }

run-attempts : run attempts guard ≡ some after_attempts
unfolding run apply_event record_failure add_time with_entry make_room new_entry prune is_locked_out
    look_up keep_entry record_success get set remove
run-attempts = refl

is_locked_out-attempts : (is_locked_out "a" 30 after_attempts).1 ≡ some 40
unfolding is_locked_out look_up prune answer remaining_of last_of get
is_locked_out-attempts = refl

-- The first failure has left the window, and the source is free, 9 before the lockout has passed.
is_locked_out-early : (is_locked_out "a" 61 after_attempts).1 ≡ none
unfolding is_locked_out look_up prune answer remaining_of last_of get
is_locked_out-early = refl

-- One source too many.
abbrev full : FailedAuthTracker
full = record guard { max_tracked_sources = 1; failures = ("a", 0 ∷ []) ∷ [] }

record_failure-full :
    record_failure "b" 5 full ≡ some (record full { failures = ("b", 5 ∷ []) ∷ [] })
unfolding record_failure add_time with_entry make_room new_entry prune get set remove
record_failure-full = refl

count-attempts : count_failures attempts ≤ 4
unfolding count_failures
count-attempts = omega arith

is_locked_out-run_example :
    (g' : FailedAuthTracker) × (run attempts guard ≡ some g')
    × ((is_locked_out "a" 30 g').1
        ≡ due 2 60 30 (filter (is_recent 60 30) (failed_times "a" [] attempts)))
is_locked_out-run_example =
    is_locked_out-run guard attempts "a" 30 refl (omega arith)
      (omega arith, (omega arith, (omega arith, (omega arith, omega arith)))) count-attempts

run-size_example : length after_attempts.failures ≤ 4
run-size_example = run-size attempts guard after_attempts (omega arith) run-attempts
