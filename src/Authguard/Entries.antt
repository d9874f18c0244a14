-- ===== src/Authguard/Entries.antt =====
-- What the operations of the guard do to the failures of each source.
use dev_team.Prelude.{
  ℕ, suc, ◌≤◌, ◌<◌, ◌≡◌, refl, String, false, Option, none, some, List, [], ◌∷◌, ◌++◌, ◌==◌, leb,
  if◌then◌else◌, length, arith, eq_iff,
}
use dev_team.Prelude.Dict.{Dict, get, set, remove, get-set, get-remove}
use dev_team.Authguard.{
  new_entry, add_time, FailedAuthTracker, prune, make_room, with_entry, record_failure, answer,
  keep_entry, look_up, is_locked_out,
}

abbrev pub times_or_nil : Option (List ℕ) → List ℕ
times_or_nil none = []
times_or_nil (some ts) = ts

abbrev pub entry : Dict (List ℕ) → String → List ℕ
entry d k = times_or_nil (get d k)

pub entry-set :
    (d : Dict (List ℕ)) (k j : String) (v : List ℕ)
    → entry (set d k v) j ≡ (if k == j then v else entry d j)
entry-set d k j v = ground (arith, get-set d k j v)

pub entry-remove :
    (d : Dict (List ℕ)) (k j : String) → entry (remove d k) j ≡ (if k == j then [] else entry d j)
entry-remove d k j = ground (arith, get-remove d k j)

pub length-set-le_suc :
    (d : Dict (List ℕ)) (k : String) (v : List ℕ) → length (set d k v) ≤ suc (length d)
unfolding set
length-set-le_suc [] k v = omega arith
length-set-le_suc ((j, w) ∷ d) k v = ground (arith, length-set-le_suc d k v)

pub length-set-present :
    (d : Dict (List ℕ)) (k : String) (v ts : List ℕ)
    → get d k ≡ some ts
    → length (set d k v) ≤ length d
unfolding set get
length-set-present [] k v ts e = cc
length-set-present ((j, w) ∷ d) k v ts e = ground (arith, length-set-present d k v ts)

pub length-remove-le : (d : Dict (List ℕ)) (k : String) → length (remove d k) ≤ length d
unfolding remove
length-remove-le [] k = omega arith
length-remove-le ((j, w) ∷ d) k = ground (arith, length-remove-le d k)

pub make_room_id : (max : ℕ) (d : Dict (List ℕ)) → length d < max → make_room max d ≡ some d
unfolding make_room
make_room_id max [] h = ground arith
make_room_id max (x ∷ d) h = ground arith

pub with_entry-room :
    (max : ℕ) (k : String) (o : Option (List ℕ)) (d : Dict (List ℕ))
    → length d < max
    → with_entry max k o d ≡ some (times_or_nil o, d)
unfolding with_entry new_entry
with_entry-room max k none d h = rw (make_room_id max d h) refl
with_entry-room max k (some ts) d h = refl

-- Where there is room, a failure is added to the recent ones of its source.
pub record_failure-room :
    (k : String) (n : ℕ) (g : FailedAuthTracker)
    → leb g.threshold 0 ≡ false
    → length g.failures < g.max_tracked_sources
    → record_failure k n g
      ≡ some (record g {
        failures = set g.failures k (prune g.window_seconds n (entry g.failures k) ++ n ∷ []);
      })
unfolding record_failure add_time
record_failure-room k n g on room =
    rw (on, with_entry-room g.max_tracked_sources k (get g.failures k) g.failures room) refl

pub entry-keep_entry :
    (d : Dict (List ℕ)) (k j : String) (v : List ℕ)
    → entry (keep_entry k v d) j ≡ (if k == j then v else entry d j)
unfolding keep_entry
entry-keep_entry d k j [] = entry-remove d k j
entry-keep_entry d k j (t ∷ ts) = entry-set d k j (t ∷ ts)

pub length-keep_entry-le :
    (d : Dict (List ℕ)) (k : String) (v ts : List ℕ)
    → get d k ≡ some ts
    → length (keep_entry k v d) ≤ length d
unfolding keep_entry
length-keep_entry-le d k [] ts e = length-remove-le d k
length-keep_entry-le d k (t ∷ v) ts e = length-set-present d k (t ∷ v) ts e

-- After a question, the recent failures of the source are left.
abbrev pub Asked : String → ℕ → FailedAuthTracker → FailedAuthTracker × Option ℕ → Type 0
Asked k n g (g', r) =
    (d : Dict (List ℕ)) × (g' ≡ record g { failures = d })
    × (r ≡ answer g n (prune g.window_seconds n (entry g.failures k)))
    × (length d ≤ length g.failures)
    × ((j : String)
        → entry d j
          ≡ (if k == j then prune g.window_seconds n (entry g.failures k) else entry g.failures j))

pub look_up-Asked :
    (k : String) (n : ℕ) (g : FailedAuthTracker) (o : Option (List ℕ))
    → get g.failures k ≡ o
    → Asked k n g (look_up k n o g)
unfolding look_up prune answer
look_up-Asked k n g none e =
    (g.failures, refl, rw e refl, omega arith, λ j. ground (arith, e, eq_iff k j))
look_up-Asked k n g (some ts) e =
    let recent = prune g.window_seconds n ts in
    (
      keep_entry k recent g.failures,
      refl,
      rw e refl,
      length-keep_entry-le g.failures k recent ts e,
      λ j. rw e (entry-keep_entry g.failures k j recent),
    )

pub is_locked_out-Asked :
    (k : String) (n : ℕ) (g : FailedAuthTracker)
    → leb g.threshold 0 ≡ false
    → Asked k n g (is_locked_out k n g)
unfolding is_locked_out
is_locked_out-Asked k n g on = rw on (look_up-Asked k n g (get g.failures k) refl)
