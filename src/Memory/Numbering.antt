-- ===== src/Memory/Numbering.antt =====
-- The numbers of the decisions of later runs.
use dev_team.Prelude.{
  suc, ◌≡◌, refl, ap, ◌∙◌, String, Bool, true, false, not, ◌||◌, some, List, [], ◌∷◌, ◌++◌, arith,
  length, elem, distinct, eq_iff, all,
}
use dev_team.Memory.{
  DecisionRecord, Blackboard, Stored, prior_of, decision_id, record_decision, seeded, unseen,
  drop_first, tail_of, max_decisions, save,
}
use dev_team.Memory.Merge.{decision_ids}

abbrev fresh : List String → List DecisionRecord → Bool
fresh seen rs = all (λ x. not (elem x seen)) (decision_ids rs)

fresh-cons :
    (x : String) (seen : List String) (rs : List DecisionRecord)
    → fresh seen rs ≡ true
    → elem x (decision_ids rs) ≡ false
    → fresh (x ∷ seen) rs ≡ true
unfolding all elem
fresh-cons x seen [] f n = refl
fresh-cons x seen (r ∷ rs) f n = ground (arith, fresh-cons x seen rs, eq_iff x r.id, eq_iff r.id x)

-- A record whose id is there already is passed over.
unseen-append :
    (seen : List String) (rs : List DecisionRecord) (r : DecisionRecord)
    → fresh seen rs ≡ true
    → distinct (decision_ids rs) ≡ true
    → (elem r.id seen || elem r.id (decision_ids rs)) ≡ true
    → unseen seen (rs ++ r ∷ []) ≡ rs
unfolding unseen distinct elem all
unseen-append seen [] r f d m = ground arith
unseen-append seen (s ∷ rs) r f d m =
    ground (arith, unseen-append (s.id ∷ seen) rs r, fresh-cons s.id seen rs)

fresh-nil : (rs : List DecisionRecord) → fresh [] rs ≡ true
unfolding all elem
fresh-nil [] = refl
fresh-nil (r ∷ rs) = fresh-nil rs

tail_of_all : (rs : List DecisionRecord) → length rs ≡ max_decisions → tail_of max_decisions rs ≡ rs
unfolding tail_of drop_first
tail_of_all rs e = rw e refl

-- Once the decision log is full and holds the id that comes after its length, the decision of a later
-- run is not kept: the run numbers it by the length of the log, which is an id of the log, and the
-- merge passes it over. What is stored is the log as it was.
pub save-record_decision_full :
    (stored : Stored) (b : Blackboard) (title context decision consequences : String)
    → b.decision_seq ≡ 0
    → b.decisions ≡ []
    → length stored.decisions ≡ max_decisions
    → distinct (decision_ids stored.decisions) ≡ true
    → elem (decision_id (suc max_decisions)) (decision_ids stored.decisions) ≡ true
    → (save
        (some stored)
        (record_decision title context decision consequences (seeded (some stored) b))).decisions
      ≡ stored.decisions
unfolding save record_decision seeded prior_of elem
save-record_decision_full stored b title context decision consequences seq none_yet full d there =
    rw (seq, none_yet, full)
      (ap (tail_of max_decisions)
          (unseen-append [] stored.decisions _ (fresh-nil stored.decisions) d there)
        ∙ tail_of_all stored.decisions full)
