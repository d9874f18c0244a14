-- ===== src/Dispatch/Run.antt =====
-- A run of the dispatch service by which a repository's jobs are parked for good.
use dev_team.Prelude.{String, true, Option, none, List, [], ◌∷◌, refl, elem, filter}
use dev_team.Prelude.Dict.{Dict, get, has, set, remove}
use dev_team.Dispatch.{
  JobSpec, JobRecord, submit, count_queued, put, claim, park, drop_head, sort_jobs, insert_job,
  position, is_head_of_line, waiting_for, start_job, start_from, set_state, write_back, end_job,
  ended_state, story_status, returns, release_repo, first_of, JobState, ItemStatus, queued, running,
  succeeded, done,
}
use dev_team.Dispatch.Worker.{
  Hand, putting, popped, claimed, executing, leaving, World, submits, puts, pops, claims, parks,
  starts, ends, releases, Reach, start, next,
}

abbrev pub spec : JobSpec
spec = record { repo = "o/r"; title = "t"; description = "d"; budget_usd = none; story_id = none }

abbrev pub same_key : String → String
same_key r = r

abbrev pub job : JobState → JobRecord
job st = record { spec = spec; state = st }

abbrev pub world :
    Dict JobRecord
    → List String
    → List String
    → List String
    → Dict (List String)
    → List String
    → List (Option String × ItemStatus)
    → List Hand
    → World
world registry order queue active deferred settled write_backs hands = record {
  dispatcher = record {
    registry = registry;
    order = order;
    queue = queue;
    active_repos = active;
    deferred = deferred;
    settled = settled;
    write_backs = write_backs;
  };
  hands = hands;
}

-- Two requests and two workers. Job 1 runs; jobs 2 and 3 are submitted in this order, and put in the
-- other. Job 3 is parked, and put again by the end of job 1, but job 2 is parked before it then, and
-- is the head; so job 3 is parked a second time, and nothing is left that would put job 2.
abbrev pub w0 : World
w0 = world (("1", job queued) ∷ []) ("1" ∷ []) ([]) ([]) ([]) ([]) ([]) (putting "1" ∷ [])

abbrev pub w1 : World
w1 = world (("1", job queued) ∷ []) ("1" ∷ []) ("1" ∷ []) ([]) ([]) ([]) ([]) ([])

abbrev pub w2 : World
w2 = world (("1", job queued) ∷ []) ("1" ∷ []) ([]) ([]) ([]) ([]) ([]) (popped "1" ∷ [])

abbrev pub w3 : World
w3 =
    world (("1", job queued) ∷ []) ("1" ∷ []) ([]) ("o/r" ∷ []) ([]) ([]) ([])
      (claimed "o/r" "1" ∷ [])

abbrev pub w4 : World
w4 =
    world (("1", job running) ∷ []) ("1" ∷ []) ([]) ("o/r" ∷ []) ([]) ([]) ([])
      (executing "o/r" "1" ∷ [])

abbrev pub w5 : World
w5 =
    world (("1", job running) ∷ ("2", job queued) ∷ []) ("1" ∷ "2" ∷ []) ([]) ("o/r" ∷ []) ([]) ([])
      ([]) (putting "2" ∷ executing "o/r" "1" ∷ [])

abbrev pub w6 : World
w6 =
    world (("1", job running) ∷ ("2", job queued) ∷ ("3", job queued) ∷ []) ("1" ∷ "2" ∷ "3" ∷ [])
      ([]) ("o/r" ∷ []) ([]) ([]) ([]) (putting "3" ∷ putting "2" ∷ executing "o/r" "1" ∷ [])

abbrev pub w7 : World
w7 =
    world (("1", job running) ∷ ("2", job queued) ∷ ("3", job queued) ∷ []) ("1" ∷ "2" ∷ "3" ∷ [])
      ("3" ∷ []) ("o/r" ∷ []) ([]) ([]) ([]) (putting "2" ∷ executing "o/r" "1" ∷ [])

abbrev pub w8 : World
w8 =
    world (("1", job running) ∷ ("2", job queued) ∷ ("3", job queued) ∷ []) ("1" ∷ "2" ∷ "3" ∷ [])
      ([]) ("o/r" ∷ []) ([]) ([]) ([]) (popped "3" ∷ putting "2" ∷ executing "o/r" "1" ∷ [])

abbrev pub w9 : World
w9 =
    world (("1", job running) ∷ ("2", job queued) ∷ ("3", job queued) ∷ []) ("1" ∷ "2" ∷ "3" ∷ [])
      ([]) ("o/r" ∷ []) (("o/r", "3" ∷ []) ∷ []) ([]) ([]) (putting "2" ∷ executing "o/r" "1" ∷ [])

abbrev pub w10 : World
w10 =
    world (("1", job succeeded) ∷ ("2", job queued) ∷ ("3", job queued) ∷ []) ("1" ∷ "2" ∷ "3" ∷ [])
      ([]) ("o/r" ∷ []) (("o/r", "3" ∷ []) ∷ []) ("1" ∷ []) ((none, done) ∷ [])
      (putting "2" ∷ leaving "o/r" ∷ [])

abbrev pub w11 : World
w11 =
    world (("1", job succeeded) ∷ ("2", job queued) ∷ ("3", job queued) ∷ []) ("1" ∷ "2" ∷ "3" ∷ [])
      ([]) ([]) (("o/r", "3" ∷ []) ∷ []) ("1" ∷ []) ((none, done) ∷ [])
      (putting "3" ∷ putting "2" ∷ [])

abbrev pub w12 : World
w12 =
    world (("1", job succeeded) ∷ ("2", job queued) ∷ ("3", job queued) ∷ []) ("1" ∷ "2" ∷ "3" ∷ [])
      ("2" ∷ []) ([]) (("o/r", "3" ∷ []) ∷ []) ("1" ∷ []) ((none, done) ∷ []) (putting "3" ∷ [])

abbrev pub w13 : World
w13 =
    world (("1", job succeeded) ∷ ("2", job queued) ∷ ("3", job queued) ∷ []) ("1" ∷ "2" ∷ "3" ∷ [])
      ([]) ([]) (("o/r", "3" ∷ []) ∷ []) ("1" ∷ []) ((none, done) ∷ [])
      (popped "2" ∷ putting "3" ∷ [])

abbrev pub w14 : World
w14 =
    world (("1", job succeeded) ∷ ("2", job queued) ∷ ("3", job queued) ∷ []) ("1" ∷ "2" ∷ "3" ∷ [])
      ([]) ([]) (("o/r", "2" ∷ "3" ∷ []) ∷ []) ("1" ∷ []) ((none, done) ∷ []) (putting "3" ∷ [])

abbrev pub w15 : World
w15 =
    world (("1", job succeeded) ∷ ("2", job queued) ∷ ("3", job queued) ∷ []) ("1" ∷ "2" ∷ "3" ∷ [])
      ("3" ∷ []) ([]) (("o/r", "2" ∷ "3" ∷ []) ∷ []) ("1" ∷ []) ((none, done) ∷ []) ([])

abbrev pub w16 : World
w16 =
    world (("1", job succeeded) ∷ ("2", job queued) ∷ ("3", job queued) ∷ []) ("1" ∷ "2" ∷ "3" ∷ [])
      ([]) ([]) (("o/r", "2" ∷ "3" ∷ []) ∷ []) ("1" ∷ []) ((none, done) ∷ []) (popped "3" ∷ [])

abbrev pub w17 : World
w17 =
    world (("1", job succeeded) ∷ ("2", job queued) ∷ ("3", job queued) ∷ []) ("1" ∷ "2" ∷ "3" ∷ [])
      ([]) ([]) (("o/r", "2" ∷ "3" ∷ "3" ∷ []) ∷ []) ("1" ∷ []) ((none, done) ∷ []) ([])

pub r0 : Reach same_key 16 w0
unfolding submit count_queued set get has remove put claim park drop_head sort_jobs insert_job
    position is_head_of_line waiting_for start_job start_from set_state write_back end_job
    ended_state story_status release_repo first_of elem filter
r0 = next start (submits _ _ "1" spec 0 refl refl)

pub r1 : Reach same_key 16 w1
unfolding submit count_queued set get has remove put claim park drop_head sort_jobs insert_job
    position is_head_of_line waiting_for start_job start_from set_state write_back end_job
    ended_state story_status release_repo first_of elem filter
r1 = next r0 (puts w0 [] [] "1" refl)

pub r2 : Reach same_key 16 w2
unfolding submit count_queued set get has remove put claim park drop_head sort_jobs insert_job
    position is_head_of_line waiting_for start_job start_from set_state write_back end_job
    ended_state story_status release_repo first_of elem filter
r2 = next r1 (pops w1 "1" [] refl)

pub r3 : Reach same_key 16 w3
unfolding submit count_queued set get has remove put claim park drop_head sort_jobs insert_job
    position is_head_of_line waiting_for start_job start_from set_state write_back end_job
    ended_state story_status release_repo first_of elem filter
r3 = next r2 (claims w2 _ [] [] "1" (job queued) refl refl refl)

pub r4 : Reach same_key 16 w4
unfolding submit count_queued set get has remove put claim park drop_head sort_jobs insert_job
    position is_head_of_line waiting_for start_job start_from set_state write_back end_job
    ended_state story_status release_repo first_of elem filter
r4 = next r3 (starts w3 _ [] [] "o/r" "1" refl refl)

pub r5 : Reach same_key 16 w5
unfolding submit count_queued set get has remove put claim park drop_head sort_jobs insert_job
    position is_head_of_line waiting_for start_job start_from set_state write_back end_job
    ended_state story_status release_repo first_of elem filter
r5 = next r4 (submits w4 _ "2" spec 0 refl refl)

pub r6 : Reach same_key 16 w6
unfolding submit count_queued set get has remove put claim park drop_head sort_jobs insert_job
    position is_head_of_line waiting_for start_job start_from set_state write_back end_job
    ended_state story_status release_repo first_of elem filter
r6 = next r5 (submits w5 _ "3" spec 1 refl refl)

pub r7 : Reach same_key 16 w7
unfolding submit count_queued set get has remove put claim park drop_head sort_jobs insert_job
    position is_head_of_line waiting_for start_job start_from set_state write_back end_job
    ended_state story_status release_repo first_of elem filter
r7 = next r6 (puts w6 [] _ "3" refl)

pub r8 : Reach same_key 16 w8
unfolding submit count_queued set get has remove put claim park drop_head sort_jobs insert_job
    position is_head_of_line waiting_for start_job start_from set_state write_back end_job
    ended_state story_status release_repo first_of elem filter
r8 = next r7 (pops w7 "3" [] refl)

pub r9 : Reach same_key 16 w9
unfolding submit count_queued set get has remove put claim park drop_head sort_jobs insert_job
    position is_head_of_line waiting_for start_job start_from set_state write_back end_job
    ended_state story_status release_repo first_of elem filter
r9 = next r8 (parks w8 _ [] _ "3" (job queued) refl refl refl)

pub r10 : Reach same_key 16 w10
unfolding submit count_queued set get has remove put claim park drop_head sort_jobs insert_job
    position is_head_of_line waiting_for start_job start_from set_state write_back end_job
    ended_state story_status release_repo first_of elem filter
r10 = next r9 (ends w9 (putting "2" ∷ []) [] "o/r" "1" (returns true) refl)

pub r11 : Reach same_key 16 w11
unfolding submit count_queued set get has remove put claim park drop_head sort_jobs insert_job
    position is_head_of_line waiting_for start_job start_from set_state write_back end_job
    ended_state story_status release_repo first_of elem filter
r11 = next r10 (releases w10 (putting "2" ∷ []) [] "o/r" refl)

pub r12 : Reach same_key 16 w12
unfolding submit count_queued set get has remove put claim park drop_head sort_jobs insert_job
    position is_head_of_line waiting_for start_job start_from set_state write_back end_job
    ended_state story_status release_repo first_of elem filter
r12 = next r11 (puts w11 (putting "3" ∷ []) [] "2" refl)

pub r13 : Reach same_key 16 w13
unfolding submit count_queued set get has remove put claim park drop_head sort_jobs insert_job
    position is_head_of_line waiting_for start_job start_from set_state write_back end_job
    ended_state story_status release_repo first_of elem filter
r13 = next r12 (pops w12 "2" [] refl)

pub r14 : Reach same_key 16 w14
unfolding submit count_queued set get has remove put claim park drop_head sort_jobs insert_job
    position is_head_of_line waiting_for start_job start_from set_state write_back end_job
    ended_state story_status release_repo first_of elem filter
r14 = next r13 (parks w13 _ [] _ "2" (job queued) refl refl refl)

pub r15 : Reach same_key 16 w15
unfolding submit count_queued set get has remove put claim park drop_head sort_jobs insert_job
    position is_head_of_line waiting_for start_job start_from set_state write_back end_job
    ended_state story_status release_repo first_of elem filter
r15 = next r14 (puts w14 [] [] "3" refl)

pub r16 : Reach same_key 16 w16
unfolding submit count_queued set get has remove put claim park drop_head sort_jobs insert_job
    position is_head_of_line waiting_for start_job start_from set_state write_back end_job
    ended_state story_status release_repo first_of elem filter
r16 = next r15 (pops w15 "3" [] refl)

pub r17 : Reach same_key 16 w17
unfolding submit count_queued set get has remove put claim park drop_head sort_jobs insert_job
    position is_head_of_line waiting_for start_job start_from set_state write_back end_job
    ended_state story_status release_repo first_of elem filter
r17 = next r16 (parks w16 _ [] [] "3" (job queued) refl refl refl)
