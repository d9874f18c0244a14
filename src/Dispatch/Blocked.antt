-- ===== src/Dispatch/Blocked.antt =====
-- What a block of a thread does to a repository whose parked jobs are not on their way.
use dev_team.Prelude.{
  ◌+◌, ◌≤◌, String, true, false, none, some, List, [], ◌∷◌, ◌++◌, ◌≡◌, refl, ◌==◌, if◌then◌else◌,
  elem, arith, eq_iff, eq_refl, is_empty,
}
use dev_team.Prelude.Dict.{has}
use dev_team.Dispatch.{Dispatcher, JobSpec, claim, is_head_of_line, waiting_for, release_repo}
use dev_team.Dispatch.Worker.{Hand, putting, popped, claimed, leaving, to_put}
use dev_team.Dispatch.Exclusion.{
  held, held-append, held-middle, held-free, elem-middle, held-to_put, active-claim, active-park,
}
use dev_team.Dispatch.States.{registry-claim}
use dev_team.Dispatch.Parked.{spec_in, claim_facts, park_facts, elem-park, not_empty-park}
use dev_team.Dispatch.Transit.{
  in_hand, hand_times, transit, hand_times-middle, hand_times-to_put, waiting_for-of_eq,
  spec-absent, release_facts,
}
use dev_team.Dispatch.Home.{keyed, keyed_unique, IsHome}

head_of_line-elem :
    (l : List String) (j : String)
    → is_empty l ≡ false
    → is_head_of_line l j ≡ true
    → elem j l ≡ true
unfolding is_head_of_line elem
head_of_line-elem [] j e h = cc
head_of_line-elem (x ∷ l) j e h = ground arith

module _ (key_of : String → String) (k : String) where
  -- Nobody holds the repository, jobs are parked, and none of them is on its way; no job of the
  -- repository is on its way twice, and none that is not registered.
  pub record IsStuck (d : Dispatcher) (hs : List Hand) : Type 0 where
    pub idle : elem k d.active_repos ≡ false
    pub unheld : elem k (held hs) ≡ false
    pub waits : is_empty (waiting_for d k) ≡ false
    pub apart : (j : String) → elem j (waiting_for d k) ≡ true → transit d hs j ≡ 0
    pub once : (j : String) → keyed key_of k (spec_in d j) ≡ true → transit d hs j ≤ 1
    pub known : (j : String) → spec_in d j ≡ none → transit d hs j ≡ 0

  -- A step that parks nothing, registers nothing and brings nothing on its way.
  pub IsStuck-quiet :
      (d d' : Dispatcher) (hs hs' : List Hand)
      → (elem k d.active_repos ≡ false → elem k d'.active_repos ≡ false)
      → (elem k (held hs) ≡ false → elem k (held hs') ≡ false)
      → waiting_for d' k ≡ waiting_for d k
      → ((j : String) → spec_in d' j ≡ spec_in d j)
      → ((j : String) → transit d' hs' j ≤ transit d hs j)
      → IsStuck d hs
      → IsStuck d' hs'
  IsStuck-quiet d d' hs hs' a h w sp t v = record {
    idle = a v.idle;
    unheld = h v.unheld;
    waits = rw w v.waits;
    apart = λ j m. omega (arith, t j, v.apart j (rw w at m));
    once = λ j m. omega (arith, t j, v.once j (rw (sp j) at m));
    known = λ j m. omega (arith, t j, v.known j (rw (sp j) at m));
  }

  pub IsStuck-submit :
      (d d' : Dispatcher) (hs : List Hand) (i : String) (spec : JobSpec)
      → IsHome key_of d
      → has d.registry i ≡ false
      → ((j : String) → spec_in d' j ≡ (if i == j then some spec else spec_in d j))
      → waiting_for d' k ≡ waiting_for d k
      → d'.queue ≡ d.queue
      → d'.active_repos ≡ d.active_repos
      → IsStuck d hs
      → IsStuck d' (putting i ∷ hs)
  unfolding hand_times
  IsStuck-submit d d' hs i spec home fresh sp w q a v = record {
    idle = rw a v.idle;
    unheld = v.unheld;
    waits = rw w v.waits;
    apart = λ j m.
        rw q (ground (arith, v.apart j, rw w at m, home k j, spec-absent d i fresh, eq_iff i j));
    once =
        λ j m. rw q (ground (arith, v.once j, v.known i (spec-absent d i fresh), sp j, eq_iff i j));
    known = λ j m. rw q (ground (arith, v.known j, sp j, eq_iff i j));
  }

  -- No job of the repository is claimed.
  claim-apart :
      (d d' : Dispatcher) (k' j : String) (before after : List Hand)
      → IsStuck d (before ++ popped j ∷ after)
      → claim k' j d ≡ (d', true)
      → k' == k ≡ false
  claim-apart d d' k' j before after v c = ground (
    arith,
    v.waits,
    v.apart j,
    (claim_facts k' j d d' c).0,
    head_of_line-elem (waiting_for d k) j,
    hand_times-middle j before after (popped j),
    eq_refl j,
    eq_iff k' k,
  )

  pub IsStuck-claim :
      (d d' : Dispatcher) (k' i : String) (before after : List Hand)
      → claim k' i d ≡ (d', true)
      → IsStuck d (before ++ popped i ∷ after)
      → IsStuck d' (before ++ claimed k' i ∷ after)
  unfolding elem
  IsStuck-claim d d' k' i before after c v = record {
    idle = rw (active-claim k' i d d' c).1 (ground (arith, other, v.idle));
    unheld =
        rw (held-middle before after (claimed k' i))
          (ground (arith, other, unheld, elem-middle k k' (held before) (held after)));
    waits = rw same v.waits;
    apart = λ j m. omega (arith, fewer j, v.apart j (rw same at m));
    once = λ j m. omega (arith, fewer j, v.once j (rw (registry-claim k' i d d' true c) at m));
    known = λ j m. omega (arith, fewer j, v.known j (rw (registry-claim k' i d d' true c) at m));
  }
    where
      other : k' == k ≡ false
      other = claim-apart d d' k' i before after v c

      unheld : elem k (held before ++ held after) ≡ false
      unheld = rw (held-middle before after (popped i)) at v.unheld

      same : waiting_for d' k ≡ waiting_for d k
      same = ground (arith, (claim_facts k' i d d' c).2 k, other)

      fewer :
          (j : String)
          → transit d' (before ++ claimed k' i ∷ after) j ≤ transit d (before ++ popped i ∷ after) j
      fewer j = rw (claim_facts k' i d d' c).1 (
          omega (
            arith,
            hand_times-middle j before after (claimed k' i),
            hand_times-middle j before after (popped i),
          ))

  pub IsStuck-park :
      (d d' : Dispatcher) (k' i : String) (before after : List Hand)
      → keyed key_of k' (spec_in d i) ≡ true
      → claim k' i d ≡ (d', false)
      → IsStuck d (before ++ popped i ∷ after)
      → IsStuck d' (before ++ after)
  IsStuck-park d d' k' i before after own c v = record {
    idle = rw (active-park k' i d d' c) v.idle;
    unheld = rw (held-free before after (popped i) refl) v.unheld;
    waits = not_empty-park k' i k d d' c v.waits;
    apart = λ j m. ground (
      arith,
      gone j,
      v.apart j,
      elem-park k' i k j d d' c,
      v.once j,
      own,
      eq_iff i j,
      eq_iff k' k,
    );
    once = λ j m. omega (arith, gone j, v.once j (rw (registry-claim k' i d d' false c) at m));
    known = λ j m. omega (arith, gone j, v.known j (rw (registry-claim k' i d d' false c) at m));
  }
    where
      gone :
          (j : String)
          → transit d' (before ++ after) j + in_hand j (popped i)
            ≡ transit d (before ++ popped i ∷ after) j
      gone j =
          rw (park_facts k' i d d' c).0 (omega (arith, hand_times-middle j before after (popped i)))

  pub IsStuck-release :
      (d : Dispatcher) (k' : String) (before after : List Hand)
      → IsHome key_of d
      → IsStuck d (before ++ leaving k' ∷ after)
      → IsStuck (release_repo k' d).0 (to_put (release_repo k' d).1 ++ (before ++ after))
  IsStuck-release d k' before after home v = record {
    idle = (release_facts k' d).4 k v.idle;
    unheld = rw (held-to_put (release_repo k' d).1 (before ++ after)) (
        ground (
          arith,
          v.unheld,
          held-middle before after (leaving k'),
          held-append before after,
          elem-middle k k' (held before) (held after),
        ));
    waits = rw same v.waits;
    apart =
        λ j m. omega (arith, kept j (far j (home k j (rw same at m))), v.apart j (rw same at m));
    once = λ j m. omega (
      arith,
      kept j (far j (rw ((release_facts k' d).0) at m)),
      v.once j (rw ((release_facts k' d).0) at m),
    );
    known = λ j m. omega (
      arith,
      kept j (lost j (rw ((release_facts k' d).0) at m)),
      v.known j (rw ((release_facts k' d).0) at m),
    );
  }
    where
      same : waiting_for (release_repo k' d).0 k ≡ waiting_for d k
      same = waiting_for-of_eq d (release_repo k' d).0 k (release_facts k' d).1

      other : k' == k ≡ false
      other = ground (
        arith,
        v.unheld,
        held-middle before after (leaving k'),
        elem-middle k k' (held before) (held after),
      )

      -- What is put is another repository's job.
      kept :
          (j : String)
          → elem j (waiting_for d k') ≡ false
          → transit (release_repo k' d).0 (to_put (release_repo k' d).1 ++ (before ++ after)) j
            ≡ transit d (before ++ leaving k' ∷ after) j
      kept j away =
          rw ((release_facts k' d).3, (release_facts k' d).2)
            (omega (
              arith,
              hand_times-to_put j (waiting_for d k') (before ++ after) away,
              hand_times-middle j before after (leaving k'),
            ))

      far : (j : String) → keyed key_of k (spec_in d j) ≡ true → elem j (waiting_for d k') ≡ false
      far j m = ground (arith, other, home k' j, keyed_unique key_of k k' (spec_in d j) m)

      lost : (j : String) → spec_in d j ≡ none → elem j (waiting_for d k') ≡ false
      lost j m = ground (arith, m, home k' j)
