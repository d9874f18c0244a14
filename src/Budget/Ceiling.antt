-- ===== src/Budget/Ceiling.antt =====
-- How far spending can pass the ceiling, with several calls in flight.
use dev_team.Prelude.{
  ℕ, suc, ◌+◌, ◌*◌, ◌≤◌, ◌<◌, ◌≡◌, refl, String, none, some, List, [], ◌∷◌, ◌++◌, length, All,
  arith, ap, ◌∙◌,
}
use dev_team.Prelude.Int.{ℤ, pos_part}
use dev_team.Budget.{
  AgentResult, UsageRecord, usage, meter_record, sum_cost, total_cost, Budget, effective_limit,
  reduced, spent, exhausted, reached, set_reserve, check, record_usage,
}

pub sum_cost-append : (xs ys : List UsageRecord) → sum_cost (xs ++ ys) ≡ sum_cost xs + sum_cost ys
unfolding sum_cost
sum_cost-append [] ys = omega arith
sum_cost-append (x ∷ xs) ys = omega (arith, sum_cost-append xs ys)

pub spent-record_usage :
    (role : String) (result : AgentResult) (b : Budget)
    → spent (record_usage role result b).0 ≡ spent b + pos_part result.cost_usd
unfolding record_usage meter_record spent total_cost usage sum_cost
spent-record_usage role result b =
    ground (arith, sum_cost-append b.meter.records (usage role result ∷ []))

-- The budget, and the calls that have passed `check` and not ended, with the results that they
-- will have.
pub record Calls : Type 0 where
  pub budget : Budget
  pub in_flight : List (String × AgentResult)

abbrev pub cost : String × AgentResult → ℕ
cost c = pos_part c.1.cost_usd

abbrev pub pending : List (String × AgentResult) → ℕ
pending [] = 0
pending (c ∷ cs) = cost c + pending cs

-- Up to `width` calls at once, none of which costs more than `most`. A call ends by a result, whose
-- usage is recorded, or by an exception; the reserve may be set at any time.
pub data Step (width most : ℕ) : Calls → Calls → Type 0 where
  begins :
      (s : Calls) (c : String × AgentResult)
      → check s.budget ≡ none
      → length s.in_flight < width
      → cost c ≤ most
      → Step width most s (record s { in_flight = c ∷ s.in_flight })
  ends :
      (s : Calls) (before after : List (String × AgentResult)) (c : String × AgentResult)
      → s.in_flight ≡ before ++ c ∷ after
      → Step width most s
          (record { budget = (record_usage c.0 c.1 s.budget).0; in_flight = before ++ after })
  dies :
      (s : Calls) (before after : List (String × AgentResult)) (c : String × AgentResult)
      → s.in_flight ≡ before ++ c ∷ after
      → Step width most s (record s { in_flight = before ++ after })
  reserves :
      (s : Calls) (amount : ℤ)
      → Step width most s (record s { budget = set_reserve amount s.budget })

-- From a budget of this limit with nothing in flight.
pub data Reach (width most limit : ℕ) : Calls → Type 0 where
  start :
      (b : Budget)
      → b.limit_usd ≡ some limit
      → spent b ≤ limit
      → Reach width most limit (record { budget = b; in_flight = [] })
  next : {s t : Calls} → Reach width most limit s → Step width most s t → Reach width most limit t

record IsBounded (width most limit : ℕ) (s : Calls) : Type 0 where
  capped : s.budget.limit_usd ≡ some limit
  narrow : length s.in_flight ≤ width
  cheap : All (λ c. cost c ≤ most) s.in_flight
  bounded : spent s.budget + pending s.in_flight ≤ limit + width * most

pending-le :
    (most : ℕ) (cs : List (String × AgentResult))
    → All (λ c. cost c ≤ most) cs
    → pending cs ≤ length cs * most
pending-le most [] h = omega arith
pending-le most (c ∷ cs) h = grind (arith, pending-le most cs h.1)

-- A call that is let through finds spending below the limit.
check-lt : (b : Budget) (limit : ℕ) → b.limit_usd ≡ some limit → check b ≡ none → spent b < limit
unfolding check exhausted reached effective_limit reduced
check-lt b limit capped h = ground arith

pending-middle :
    (before after : List (String × AgentResult)) (c : String × AgentResult)
    → pending (before ++ c ∷ after) ≡ cost c + pending (before ++ after)
pending-middle [] after c = refl
pending-middle (b ∷ bs) after c = omega (arith, pending-middle bs after c)

length-middle :
    (before after : List (String × AgentResult)) (c : String × AgentResult)
    → length (before ++ c ∷ after) ≡ suc (length (before ++ after))
length-middle [] after c = refl
length-middle (b ∷ bs) after c = ap suc (length-middle bs after c)

All-middle :
    (P : String × AgentResult → Type 0) (before after : List (String × AgentResult))
    (c : String × AgentResult)
    → All P (before ++ c ∷ after)
    → All P (before ++ after)
All-middle P [] after c h = h.1
All-middle P (b ∷ bs) after c h = (h.0, All-middle P bs after c h.1)

mul_mono : (a b m : ℕ) → a ≤ b → a * m ≤ b * m
mul_mono a b m h = grind arith

limit_usd-record_usage :
    (role : String) (result : AgentResult) (b : Budget)
    → (record_usage role result b).0.limit_usd ≡ b.limit_usd
unfolding record_usage
limit_usd-record_usage role result b = refl

Step-IsBounded :
    (width most limit : ℕ) {s t : Calls}
    → Step width most s t
    → IsBounded width most limit s
    → IsBounded width most limit t
unfolding set_reserve spent
Step-IsBounded width most limit (begins s c passed room fits) v = record {
  capped = v.capped;
  narrow = omega arith;
  cheap = (fits, v.cheap);
  bounded = omega (
    arith,
    check-lt s.budget limit v.capped passed,
    pending-le most (c ∷ s.in_flight) (fits, v.cheap),
    mul_mono (suc (length s.in_flight)) width most room,
  );
}
Step-IsBounded width most limit (ends s before after c e) v = record {
  capped = limit_usd-record_usage c.0 c.1 s.budget ∙ v.capped;
  narrow = omega (arith, v.narrow, ap length e, length-middle before after c);
  cheap = All-middle _ before after c (rw e at v.cheap);
  bounded = omega (
    arith,
    v.bounded,
    ap pending e,
    pending-middle before after c,
    spent-record_usage c.0 c.1 s.budget,
  );
}
Step-IsBounded width most limit (dies s before after c e) v = record {
  capped = v.capped;
  narrow = omega (arith, v.narrow, ap length e, length-middle before after c);
  cheap = All-middle _ before after c (rw e at v.cheap);
  bounded = omega (arith, v.bounded, ap pending e, pending-middle before after c);
}
Step-IsBounded width most limit (reserves s amount) v = record {
  capped = v.capped;
  narrow = v.narrow;
  cheap = v.cheap;
  bounded = v.bounded;
}

Reach-IsBounded :
    (width most limit : ℕ) {s : Calls} → Reach width most limit s → IsBounded width most limit s
Reach-IsBounded width most limit (start b capped under) = record {
  capped = capped;
  narrow = omega arith;
  cheap = tt;
  bounded = omega arith;
}
Reach-IsBounded width most limit (next r st) =
    Step-IsBounded width most limit st (Reach-IsBounded width most limit r)

-- With at most `width` calls in flight at any time, none of which costs more than `most`, and from
-- a budget that has not passed its limit, spending never passes the limit by more than
-- `width * most`, whatever is reserved or released on the way.
pub Reach-spent-le :
    (width most limit : ℕ) {s : Calls}
    → Reach width most limit s
    → spent s.budget ≤ limit + width * most
Reach-spent-le width most limit r = omega (arith, (Reach-IsBounded width most limit r).bounded)
