-- ===== src/Authguard/Size.antt =====
-- The bound on the sources that the guard tracks.
use dev_team.Prelude.{
  ℕ, ◌≤◌, ◌<◌, ◌≡◌, refl, String, Option, none, some, List, [], ◌∷◌, ◌++◌, leb, length, arith,
  Bool-cases, inl, inr, eq_refl,
}
use dev_team.Prelude.Dict.{Dict, get, remove}
use dev_team.Authguard.{
  Event, fails, asks, succeeds, apply_event, run, FailedAuthTracker, prune, new_entry, add_time,
  make_room, with_entry, record_failure, is_locked_out, record_success,
}
use dev_team.Authguard.Entries.{
  length-set-le_suc, length-set-present, length-remove-le, is_locked_out-Asked,
}

length-make_room-lt :
    (max : ℕ) (d d' : Dict (List ℕ)) → length d ≤ max → make_room max d ≡ some d' → length d' < max
unfolding make_room remove
length-make_room-lt max [] d' le e = ground arith
length-make_room-lt max ((k, ts) ∷ d) d' le e = ground (arith, length-remove-le d k, eq_refl k)

length-add_time-le :
    (k : String) (n : ℕ) (g g' : FailedAuthTracker) (o : Option (List ℕ))
    → get g.failures k ≡ o
    → length g.failures ≤ g.max_tracked_sources
    → add_time k n g (with_entry g.max_tracked_sources k o g.failures) ≡ some g'
    → length g'.failures ≤ g.max_tracked_sources
unfolding add_time with_entry new_entry
length-add_time-le k n g g' (some ts) h le e =
    ground (arith, length-set-present g.failures k (prune g.window_seconds n ts ++ n ∷ []) ts h)
length-add_time-le k n g g' none h le e = go (make_room g.max_tracked_sources g.failures) refl e
  where
    go :
        (o : Option (Dict (List ℕ)))
        → make_room g.max_tracked_sources g.failures ≡ o
        → add_time k n g (new_entry o) ≡ some g'
        → length g'.failures ≤ g.max_tracked_sources
    go none f e = cc
    go (some d) f e = ground (
      arith,
      length-make_room-lt g.max_tracked_sources g.failures d le f,
      length-set-le_suc d k (prune g.window_seconds n [] ++ n ∷ []),
    )

-- An operation keeps to the bound, and leaves it as it is.
record KeepsBound (g g' : FailedAuthTracker) : Type 0 where
  bound : g'.max_tracked_sources ≡ g.max_tracked_sources
  size : length g'.failures ≤ g.max_tracked_sources

max-add_time :
    (k : String) (n : ℕ) (g g' : FailedAuthTracker) (o : Option (List ℕ × Dict (List ℕ)))
    → add_time k n g o ≡ some g'
    → g'.max_tracked_sources ≡ g.max_tracked_sources
unfolding add_time
max-add_time k n g g' none e = cc
max-add_time k n g g' (some p) e = ground (arith, e)

fails-KeepsBound :
    (k : String) (n : ℕ) (g g' : FailedAuthTracker)
    → length g.failures ≤ g.max_tracked_sources
    → record_failure k n g ≡ some g'
    → KeepsBound g g'
unfolding record_failure
fails-KeepsBound k n g g' le e = elim (Bool-cases (leb g.threshold 0)) [
  | inl off ↦ record { bound = ground (arith, rw off at e); size = ground (arith, rw off at e) }
  | inr on ↦
      let e' = rw on at e in
      record {
        bound = max-add_time k n g g' _ e';
        size = length-add_time-le k n g g' (get g.failures k) refl le e';
      }
]

asks-KeepsBound :
    (k : String) (n : ℕ) (g : FailedAuthTracker)
    → length g.failures ≤ g.max_tracked_sources
    → KeepsBound g (is_locked_out k n g).0
unfolding is_locked_out
asks-KeepsBound k n g le = elim (Bool-cases (leb g.threshold 0)) [
  | inl off ↦ rw off (record { bound = refl; size = le })
  | inr on ↦
      let (d, e, _, small, _) = is_locked_out-Asked k n g on in
      rw e (record { bound = refl; size = omega (arith, small) })
]

event-KeepsBound :
    (ev : Event) (g g' : FailedAuthTracker)
    → length g.failures ≤ g.max_tracked_sources
    → apply_event ev g ≡ some g'
    → KeepsBound g g'
unfolding apply_event record_success
event-KeepsBound (fails k n) g g' le e = fails-KeepsBound k n g g' le e
event-KeepsBound (asks k n) g g' le e =
    let kept = asks-KeepsBound k n g le in
    record { bound = ground (arith, e, kept.bound); size = ground (arith, e, kept.size) }
event-KeepsBound (succeeds k) g g' le e = record {
  bound = ground (arith, e);
  size = ground (arith, e, length-remove-le g.failures k);
}

run_inv :
    (e : Event) (es : List Event) (g g' : FailedAuthTracker)
    → run (e ∷ es) g ≡ some g'
    → (m : FailedAuthTracker) × (apply_event e g ≡ some m) × (run es m ≡ some g')
unfolding run
run_inv e es g g' h = go (apply_event e g) refl h
  where
    go :
        (o : Option FailedAuthTracker)
        → apply_event e g ≡ o
        → (elim o [ none ↦ none | some r ↦ run es r ]) ≡ some g'
        → (m : FailedAuthTracker) × (apply_event e g ≡ some m) × (run es m ≡ some g')
    go none f h = cc
    go (some m) f h = (m, f, h)

-- From a tracker with no more sources than it may track, no run of events makes it track more.
pub run-size :
    (events : List Event) (g g' : FailedAuthTracker)
    → length g.failures ≤ g.max_tracked_sources
    → run events g ≡ some g'
    → length g'.failures ≤ g'.max_tracked_sources
unfolding run
run-size [] g g' le e = ground (arith, e)
run-size (ev ∷ es) g g' le e =
    let (m, first, rest) = run_inv ev es g g' e in
    let kept = event-KeepsBound ev g m le first in
    run-size es m g' (omega (arith, kept.bound, kept.size)) rest
