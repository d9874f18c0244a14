-- ===== src/Authguard/Lockout.antt =====
-- A source is locked out exactly by what it did: the guard against a history of events.
use dev_team.Prelude.{
  ℕ, ◌+◌, ◌-◌, ◌≤◌, ◌≡◌, refl, ap, ◌∙◌, String, false, ◌&&◌, Option, none, some, List, [], ◌∷◌,
  ◌++◌, ◌==◌, ltb, leb, if◌then◌else◌, length, filter, arith, Bool-cases, inl, inr, eq_iff,
}
use dev_team.Prelude.Dict.{Dict, get, set, remove}
use dev_team.Authguard.{
  Event, fails, asks, succeeds, apply_event, run, failed_times, count_failures, FailedAuthTracker,
  prune, last_of, remaining_of, answer, is_locked_out, record_success,
}
use dev_team.Authguard.Window.{
  is_recent, Ascending, Ascending-append, Ascending-upper, Ascending-filter, prune-filter,
  filter-filter, filter-append,
}
use dev_team.Authguard.Entries.{
  entry, entry-set, entry-remove, length-set-le_suc, length-remove-le, record_failure-room,
  is_locked_out-Asked,
}

-- The events happen in this order, from one time to another.
abbrev pub Timed : ℕ → ℕ → List Event → Type 0
Timed lo hi [] = lo ≤ hi
Timed lo hi (fails k now ∷ es) = (lo ≤ now) × Timed now hi es
Timed lo hi (asks k now ∷ es) = (lo ≤ now) × Timed now hi es
Timed lo hi (succeeds k ∷ es) = Timed lo hi es

-- What the tracker has of a source, from a time on, against the failures `h`.
record IsView (window : ℕ) (t : ℕ) (ts h : List ℕ) : Type 0 where
  ordered : Ascending 0 t ts
  same : (now : ℕ) → t ≤ now → filter (is_recent window now) ts ≡ filter (is_recent window now) h

IsView-later :
    (window t t' : ℕ) (ts h : List ℕ) → t ≤ t' → IsView window t ts h → IsView window t' ts h
IsView-later window t t' ts h le v = record {
  ordered = Ascending-upper 0 t t' ts le v.ordered;
  same = λ now l. v.same now (omega arith);
}

IsView-prune :
    (window t n : ℕ) (ts h : List ℕ)
    → t ≤ n
    → IsView window t ts h
    → IsView window n (prune window n ts) h
IsView-prune window t n ts h le v = rw (prune-filter window n 0 t ts v.ordered) (record {
  ordered = Ascending-filter (is_recent window n) 0 n ts (Ascending-upper 0 t n ts le v.ordered);
  same = λ now l. filter-filter window now n ts l ∙ v.same now (omega arith);
})

IsView-fail :
    (window n : ℕ) (ts h : List ℕ)
    → IsView window n ts h
    → IsView window n (ts ++ n ∷ []) (h ++ n ∷ [])
IsView-fail window n ts h v = record {
  ordered = Ascending-append 0 n n ts (omega arith) v.ordered;
  same = λ now l.
      rw
        (
          filter-append (is_recent window now) ts (n ∷ []),
          filter-append (is_recent window now) h (n ∷ []),
          v.same now l,
        )
        refl;
}

IsView-fails :
    (window t n : ℕ) (d : Dict (List ℕ)) (k key : String) (h : List ℕ)
    → t ≤ n
    → IsView window t (entry d key) h
    → IsView window n
        (entry (set d k (prune window n (entry d k) ++ n ∷ [])) key)
        (if k == key then h ++ n ∷ [] else h)
IsView-fails window t n d k key h le v = elim (Bool-cases (k == key)) [
  | inl same ↦
      rw (entry-set d k key (prune window n (entry d k) ++ n ∷ []), same, (eq_iff k key).0 same)
        (IsView-fail window n _ h (IsView-prune window t n (entry d key) h le v))
  | inr other ↦
      rw (entry-set d k key (prune window n (entry d k) ++ n ∷ []), other)
        (IsView-later window t n (entry d key) h le v)
]

IsView-asks :
    (window t n : ℕ) (d d' : Dict (List ℕ)) (k key : String) (h : List ℕ)
    → t ≤ n
    → entry d' key ≡ (if k == key then prune window n (entry d k) else entry d key)
    → IsView window t (entry d key) h
    → IsView window n (entry d' key) h
IsView-asks window t n d d' k key h le e v = elim (Bool-cases (k == key)) [
  | inl same ↦ rw (e, same, (eq_iff k key).0 same) (IsView-prune window t n (entry d key) h le v)
  | inr other ↦ rw (e, other) (IsView-later window t n (entry d key) h le v)
]

IsView-succeeds :
    (window t : ℕ) (d : Dict (List ℕ)) (k key : String) (h : List ℕ)
    → IsView window t (entry d key) h
    → IsView window t (entry (remove d k) key) (if k == key then [] else h)
unfolding filter
IsView-succeeds window t d k key h v = elim (Bool-cases (k == key)) [
  | inl same ↦
      rw (entry-remove d k key, same) (record { ordered = omega arith; same = λ now l. refl })
  | inr other ↦ rw (entry-remove d k key, other) v
]

-- A run of events that the tracker has room for ends, with a view of the source's failures.
Viewed : String → ℕ → List ℕ → List Event → FailedAuthTracker → Type 0
Viewed key now h es g =
    (d : Dict (List ℕ)) × (run es g ≡ some (record g { failures = d }))
    × IsView g.window_seconds now (entry d key) (failed_times key h es)

run_step :
    (e : Event) (es : List Event) (g g' : FailedAuthTracker)
    → apply_event e g ≡ some g'
    → run (e ∷ es) g ≡ run es g'
unfolding run
run_step e es g g' h = ap (λ o. elim o [ none ↦ none | some r ↦ run es r ]) h

run-Viewed :
    (key : String) (es : List Event) (g : FailedAuthTracker) (h : List ℕ) (t now : ℕ)
    → leb g.threshold 0 ≡ false
    → Timed t now es
    → count_failures es + length g.failures ≤ g.max_tracked_sources
    → IsView g.window_seconds t (entry g.failures key) h
    → Viewed key now h es g
unfolding run apply_event failed_times count_failures Viewed record_success
run-Viewed key [] g h t now on times room v = (g.failures, refl, IsView-later _ t now _ h times v)
run-Viewed key (fails k n ∷ es) g h t now on times room v =
    let d = set g.failures k (prune g.window_seconds n (entry g.failures k) ++ n ∷ []) in
    let step = record_failure-room k n g on (omega (arith, room)) in
    let (d', e, view) =
      run-Viewed key es (record g { failures = d }) _ n now on times.1
        (omega (
          arith,
          room,
          length-set-le_suc g.failures k (prune g.window_seconds n (entry g.failures k) ++ n ∷ []),
        ))
        (IsView-fails g.window_seconds t n g.failures k key h times.0 v) in
    (d', run_step (fails k n) es g _ step ∙ e, view)
run-Viewed key (asks k n ∷ es) g h t now on times room v =
    let (d, step, _, small, entries) = is_locked_out-Asked k n g on in
    let (d', e, view) =
      run-Viewed key es (record g { failures = d }) h n now on times.1 (omega (arith, room, small))
        (IsView-asks g.window_seconds t n g.failures d k key h times.0 (entries key) v) in
    (d', run_step (asks k n) es g _ (ap some step) ∙ e, view)
run-Viewed key (succeeds k ∷ es) g h t now on times room v =
    run-Viewed key es (record g { failures = remove g.failures k }) _ t now on times
      (omega (arith, room, length-remove-le g.failures k))
      (IsView-succeeds g.window_seconds t g.failures k key h v)

-- The lockout that the recent failures of a source are due: enough of them, and not too long ago.
pub due : ℕ → ℕ → ℕ → List ℕ → Option ℕ
due threshold lockout now [] = none
due threshold lockout now (t ∷ ts) =
    if leb threshold (length (t ∷ ts)) && ltb now (last_of t ts + lockout)
    then some (last_of t ts + lockout - now)
    else none

answer-due :
    (g : FailedAuthTracker) (now : ℕ) (ts : List ℕ)
    → answer g now ts ≡ due g.threshold g.lockout_seconds now ts
unfolding answer due remaining_of
answer-due g now [] = refl
answer-due g now (t ∷ ts) = ground arith

-- From an empty tracker that is not disabled, after events in the order of time that it has room
-- for, no call fails, and a source is locked out exactly where those of its failures since its last
-- success that are in the window now are as many as the threshold, and the lockout from the last of
-- them has not passed; what is answered is what is left, now, of the lockout from the last of them.
-- The source may be free before that has passed, since its failures leave the window meanwhile. What
-- other sources did, and what was asked before, does not matter.
pub is_locked_out-run :
    (g : FailedAuthTracker) (events : List Event) (key : String) (now : ℕ)
    → g.failures ≡ []
    → 1 ≤ g.threshold
    → Timed 0 now events
    → count_failures events ≤ g.max_tracked_sources
    → (g' : FailedAuthTracker) × (run events g ≡ some g')
      × ((is_locked_out key now g').1
          ≡ due g.threshold g.lockout_seconds now
              (filter (is_recent g.window_seconds now) (failed_times key [] events)))
unfolding Viewed get
is_locked_out-run g events key now empty on times room =
    let enabled : leb g.threshold 0 ≡ false = ground arith in
    let (d, e, view) =
      run-Viewed key events g [] 0 now enabled times (rw empty (omega (arith, room)))
        (rw empty (record { ordered = omega arith; same = λ now l. refl })) in
    let g' : FailedAuthTracker = record g { failures = d } in
    let (_, _, a, _, _) = is_locked_out-Asked key now g' enabled in
    (
      g',
      e,
      a
          ∙ answer-due g' now _
          ∙ ap (due g.threshold g.lockout_seconds now) (
              prune-filter g.window_seconds now 0 now (entry d key) view.ordered
              ∙ view.same now (omega arith)),
    )
