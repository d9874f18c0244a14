-- ===== src/Verification/Polls.antt =====
-- src/dev_team/verification.py: what polling a remote build comes to.
use dev_team.Prelude.{
  ℕ, zero, suc, ◌+◌, ◌<◌, ◌≡◌, refl, ap, ◌⊎◌, inl, inr, String, Bool, true, false, Option, none,
  some, List, Bool-cases, arith,
}
use native.Mathlib.Decide.{dec_lt}
use dev_team.Policy.{CommandResult}
use dev_team.Verification.{
  ok, output, GateContext, GateResult, gate_result, run_in, RemoteCiGate, pause, polls_exhausted,
  poll_loop, after_trigger, triggered, remote_ci_gate,
}

module _ {W : Type 0} (gate : RemoteCiGate W) (context : GateContext W) where
  -- The poll of each number, from 0, where no poll before it ends the polling: there is a pause between
  -- two polls and none before the first.
  unfoldable pub polled : ℕ → W → CommandResult × W
  polled zero w = run_in context gate.status_command w
  polled (suc i) w = run_in context gate.status_command (gate.sleep (polled i w).1)

  -- The state that so many polls leave.
  unfoldable pub left_by : ℕ → W → W
  unfolding polled
  left_by zero w = w
  left_by (suc i) w = (polled i w).1

  abbrev pub Failed : ℕ → W → Type 0
  Failed i w = (j : ℕ) → j < i → ok (polled j w).0 ≡ false

  -- The first poll that exits with zero passes the gate, and is the last one; if none of as many polls
  -- as there may be does, then all of them are made and the gate fails.
  abbrev pub PollsEnd : W → GateResult × W → Type 0
  PollsEnd w (result, final) =
      ((i : ℕ) × (i < gate.max_polls)
        × Failed i w
        × (ok (polled i w).0 ≡ true)
        × (result ≡ gate_result gate.name true (output (polled i w).0))
        × (final ≡ (polled i w).1))
      ⊎ (Failed gate.max_polls w × (result.passed ≡ false) × (final ≡ left_by gate.max_polls w))

  polled_lem :
      (i : ℕ) (w : W)
      → run_in context gate.status_command (pause gate context i (left_by i w)) ≡ polled i w
  unfolding polled left_by pause
  polled_lem zero w = refl
  polled_lem (suc i) w = refl

  Failed-suc : (i : ℕ) (w : W) → Failed i w → ok (polled i w).0 ≡ false → Failed (suc i) w
  Failed-suc i w failed e j h = elim (dec_lt j i) [
    | yes earlier ↦ failed j earlier
    | no late ↦ let same : j ≡ i = omega (arith, h, late) in rw same e
  ]

  poll_loop-PollsEnd :
      (w : W) (left i : ℕ) (last : String)
      → i + left ≡ gate.max_polls
      → Failed i w
      → PollsEnd w (poll_loop gate context left i last (left_by i w))
  unfolding poll_loop polls_exhausted polled left_by
  poll_loop-PollsEnd w zero i last e failed =
      let all_made : i ≡ gate.max_polls = omega (arith, e) in
      inr ((λ j h. failed j (omega (arith, h, e))), refl, ap (λ n. left_by n w) all_made)
  poll_loop-PollsEnd w (suc left) i last e failed =
      let poll = polled i w in
      rw (polled_lem i w) (elim (Bool-cases (ok poll.0)) [
        | inl e₁ ↦ rw e₁ (inl (i, omega (arith, e), failed, e₁, refl, refl))
        | inr e₁ ↦ rw e₁ (
            poll_loop-PollsEnd w left (suc i) (output poll.0) (omega (arith, e))
              (Failed-suc i w failed e₁))
      ])

-- The outcome of the command that starts the remote build, and the state that it leaves.
module _ {W : Type 0} (context : GateContext W) where
  unfoldable pub trigger_ok : Option (List String) → W → Bool
  trigger_ok none w = true
  trigger_ok (some command) w = ok (run_in context command w).0

  unfoldable pub trigger_state : Option (List String) → W → W
  trigger_state none w = w
  trigger_state (some command) w = (run_in context command w).1

module _ {W : Type 0} (gate : RemoteCiGate W) (context : GateContext W) where
  abbrev pub GateEnds : Bool → W → GateResult × W → Type 0
  GateEnds true w outcome = PollsEnd gate context w outcome
  GateEnds false w (result, final) = (result.passed ≡ false) × (final ≡ w)

  all_polls : (w : W) → PollsEnd gate context w (poll_loop gate context gate.max_polls 0 "" w)
  unfolding left_by
  all_polls w =
      poll_loop-PollsEnd gate context w gate.max_polls 0 "" (omega arith) (λ j h. ground (arith, h))

  triggered-GateEnds :
      (command : Option (List String)) (w : W)
      → GateEnds
          (trigger_ok context command w)
          (trigger_state context command w)
          (triggered gate context command w)
  unfolding triggered after_trigger trigger_ok trigger_state
  triggered-GateEnds none w = all_polls w
  triggered-GateEnds (some command) w = elim (Bool-cases (ok (run_in context command w).0)) [
    | inl e ↦ rw e (all_polls (run_in context command w).1)
    | inr e ↦ rw e (refl, refl)
  ]

-- The gate of a remote build: where the command that starts the build fails, the gate fails and polls
-- nothing. Otherwise it polls at most `max_polls` times, with one pause between two polls and none
-- before the first, and stops at the first poll that exits with zero: then, and only then, it passes,
-- with the output of that poll; it fails where all the polls that are allowed were made and none did.
pub remote_ci_gate-GateEnds :
    {W : Type 0} (gate : RemoteCiGate W) (context : GateContext W) (w : W)
    → GateEnds gate context
        (trigger_ok context gate.trigger_command w)
        (trigger_state context gate.trigger_command w)
        (remote_ci_gate gate context w)
unfolding remote_ci_gate
remote_ci_gate-GateEnds gate context w = triggered-GateEnds gate context gate.trigger_command w
