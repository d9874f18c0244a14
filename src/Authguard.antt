-- ===== src/Authguard.antt =====
-- src/dev_team/authguard.py: the guard against repeated failed authentication. A source's failures
-- are the list of their times, oldest first. Times are natural numbers of a small unit in place of
-- floats of seconds, and a difference is written as a sum on the other side. A threshold of 0 or
-- less, which disables the guard, is 0.
pub mod Window
pub mod Entries
pub mod Lockout
pub mod Size
pub mod Tests
use dev_team.Prelude.{
  ℕ, zero, suc, ◌+◌, ◌-◌, String, Bool, true, false, Option, none, some, List, [], ◌∷◌, ◌++◌, ◌==◌,
  ltb, leb, if◌then◌else◌, length,
}
use dev_team.Prelude.Dict.{Dict, get, set, remove}

pub record FailedAuthTracker : Type 0 where
  pub threshold : ℕ
  pub window_seconds : ℕ
  pub lockout_seconds : ℕ
  pub max_tracked_sources : ℕ
  pub failures : Dict (List ℕ)

-- `_prune`: the loop stops at the first time that is not before the cutoff.
pub prune : ℕ → ℕ → List ℕ → List ℕ
prune window now [] = []
prune window now (t ∷ ts) =
    let rest = prune window now ts in if ltb (t + window) now then rest else t ∷ ts

-- The oldest key goes where the dict is full. `none` is the StopIteration of a tracker that may
-- hold no source.
pub make_room : ℕ → Dict (List ℕ) → Option (Dict (List ℕ))
make_room max [] = if leb max 0 then none else some []
make_room max ((k, ts) ∷ d) =
    if leb max (length ((k, ts) ∷ d)) then some (remove ((k, ts) ∷ d) k) else some ((k, ts) ∷ d)

-- An empty list for a source that was not tracked.
pub new_entry : Option (Dict (List ℕ)) → Option (List ℕ × Dict (List ℕ))
new_entry none = none
new_entry (some d) = some ([], d)

-- The list that the time of a failure is added to, in a dict that has it.
pub with_entry : ℕ → String → Option (List ℕ) → Dict (List ℕ) → Option (List ℕ × Dict (List ℕ))
with_entry max key (some ts) d = some (ts, d)
with_entry max key none d = new_entry (make_room max d)

pub add_time :
    String → ℕ → FailedAuthTracker → Option (List ℕ × Dict (List ℕ)) → Option FailedAuthTracker
add_time key now g none = none
add_time key now g (some (ts, d)) =
    some (record g { failures = set d key (prune g.window_seconds now ts ++ now ∷ []) })

pub record_failure : String → ℕ → FailedAuthTracker → Option FailedAuthTracker
record_failure key now g =
    if leb g.threshold 0
    then some g
    else add_time key now g (with_entry g.max_tracked_sources key (get g.failures key) g.failures)

-- The time of the last failure.
last_of : ℕ → List ℕ → ℕ
last_of t [] = t
last_of t (u ∷ us) = last_of u us

-- What remains of the lockout, if anything.
remaining_of : ℕ → ℕ → ℕ → Option ℕ
remaining_of lockout now last =
    if ltb now (lockout + last) then some (lockout + last - now) else none

-- The answer for a source with these failures in the window, and whether its entry is deleted.
pub answer : FailedAuthTracker → ℕ → List ℕ → Option ℕ
answer g now [] = none
answer g now (t ∷ ts) =
    if ltb (length (t ∷ ts)) g.threshold
    then none
    else remaining_of g.lockout_seconds now (last_of t ts)

pub keep_entry : String → List ℕ → Dict (List ℕ) → Dict (List ℕ)
keep_entry key [] d = remove d key
keep_entry key (t ∷ ts) d = set d key (t ∷ ts)

pub look_up : String → ℕ → Option (List ℕ) → FailedAuthTracker → FailedAuthTracker × Option ℕ
look_up key now none g = (g, none)
look_up key now (some ts) g =
    let recent = prune g.window_seconds now ts in
    (record g { failures = keep_entry key recent g.failures }, answer g now recent)

pub is_locked_out : String → ℕ → FailedAuthTracker → FailedAuthTracker × Option ℕ
is_locked_out key now g =
    if leb g.threshold 0 then (g, none) else look_up key now (get g.failures key) g

pub record_success : String → FailedAuthTracker → FailedAuthTracker
record_success key g = record g { failures = remove g.failures key }

-- What the service does with the tracker.
pub data Event : Type 0 where
  fails asks : String → ℕ → Event
  succeeds : String → Event

pub apply_event : Event → FailedAuthTracker → Option FailedAuthTracker
apply_event (fails key now) g = record_failure key now g
apply_event (asks key now) g = some (is_locked_out key now g).0
apply_event (succeeds key) g = some (record_success key g)

pub run : List Event → FailedAuthTracker → Option FailedAuthTracker
run [] g = some g
run (e ∷ es) g = elim (apply_event e g) [ none ↦ none | some g' ↦ run es g' ]

-- The times at which a source has failed since it last succeeded, after those in `h`.
pub failed_times : String → List ℕ → List Event → List ℕ
failed_times key h [] = h
failed_times key h (fails k now ∷ es) = failed_times key (if k == key then h ++ now ∷ [] else h) es
failed_times key h (asks k now ∷ es) = failed_times key h es
failed_times key h (succeeds k ∷ es) = failed_times key (if k == key then [] else h) es

pub count_failures : List Event → ℕ
count_failures [] = 0
count_failures (fails k now ∷ es) = suc (count_failures es)
count_failures (asks k now ∷ es) = count_failures es
count_failures (succeeds k ∷ es) = count_failures es
