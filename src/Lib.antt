-- ===== src/Lib.antt =====
-- dev-team: a service in which a team of agents plans, builds and checks software. A request
-- becomes a plan of tasks, which a linter accepts and a scheduler runs concurrently as their
-- dependencies allow; a task that failed may be re-planned. Each call of an agent is metered
-- against a budget. The dispatch service queues such jobs for several repositories, and runs them
-- with a pool of workers, one at a time for each repository.
--
-- The development models the parts that decide what runs and when. Models: the tasks and plans of
-- src/dev_team/models.py. Ordering: topological_order, _tasks_in_cycle and lint_plan of
-- src/dev_team/ordering.py. Scheduler: schedule of src/dev_team/scheduler.py, whose coroutine is a
-- state with one function per loop body, and whose event loop is a parameter that says which tasks
-- in flight end in a wait. Replan: apply_replan of src/dev_team/replan.py, on the linter of
-- Ordering. Budget: UsageMeter and Budget of src/dev_team/budget.py, and a metered call of
-- InstrumentedRunner of src/dev_team/instrument.py. Dispatch: the job queue of Dispatcher of
-- src/dev_team/dispatch.py (submit, the locked blocks of _worker_loop and _execute, _release_repo,
-- _fail_timed_out and cancel_job), and in Dispatch/Worker.antt a step relation in which the blocks
-- of any number of workers and requests interleave. Authguard: FailedAuthTracker of
-- src/dev_team/authguard.py, which locks out the sources of failed requests to the service.
-- Backlog: ids, stories and iterations of src/dev_team/backlog.py, with delete_story of
-- src/dev_team/dispatch.py. Foreman: ready_for_delivery of src/dev_team/foreman.py and foreman_run
-- of src/dev_team/dispatch.py, which puts jobs for ready stories of Backlog in the queue of
-- Dispatch. Verification: the gates and the definition of done of src/dev_team/verification.py,
-- over any runner and clock, and the failing tests of go and cargo of src/dev_team/failures.py.
-- Triage: the decision on a raw request of src/dev_team/triage.py. Workspace: _normalise and
-- InMemoryWorkspace of src/dev_team/execution.py, and is_ci_workflow_path of
-- src/dev_team/changes.py. Replies: the search for JSON in a text of src/dev_team/json_utils.py
-- and the parsers of src/dev_team/parsing.py, which make plans, reviews and test reports of it.
-- Agents: ask and ask_json of BaseAgent of src/dev_team/agents/base.py on the metered call of
-- Budget, and the six agents of the workflow; the model is a parameter that replies to each call.
-- Workflow: run, _develop_tasks, _develop_task and _reviewed_plan of src/dev_team/workflow.py, in
-- a monad of outcomes over the budget, the calls made and the statuses assigned. Policy:
-- SideEffectPolicy and GuardedCommandRunner of src/dev_team/policy.py with the gates of
-- src/dev_team/approval.py. Memory: the blackboard, checkpoints and project memory of
-- src/dev_team/memory.py. Prelude holds what they share: Boolean tests, lists, sets of texts,
-- Python dicts as lists of items, and str of a number.
--
-- How the parts meet: the re-planner calls the linter, the linter the cycle search, and the
-- scheduler the helpers of the sort. The workflow orders a plan with the sort, asks agents whose
-- every call is checked and recorded by the budget, and reads their replies with the parsers.
--
-- Definitions keep the names of the source; an inner loop has a name of its own, and the first
-- comment of its file says which loop it is. An exception is a constructor of the result. Loops
-- run on fuel: the sort and the cycle search on one round per task, since each round removes one;
-- the scheduler on one round more than there are tasks, since each round gives some task its
-- status; _unique_id on one round per id taken, since it tries another id in each; the search for
-- JSON on one round per character, since each round passes one at least.
--
-- Costs are natural numbers of a small unit in place of floats. Messages, logs, traces and times
-- are left out. In the scheduler, a cancellation from outside and a listener that raises are left
-- out. In the dispatch service, the shutdown sentinel, the sweep of archived jobs and purging are
-- left out, and the key that a repository is serialised by is any function of its name. In the
-- foreman, the audit that names a story's repository, the parser of repositories and the file of
-- the backlog are parameters, and other threads act between its submissions and before its
-- cancellations by any function. In the gates, a report is read with the digits and letters of
-- ASCII. In the workflow, what a listener is told is left out, and a person's answers are a list.
-- The wording of prompts, the delivery engine, the command line, HTTP, git, and the tools that
-- read repositories are not modelled.
pub mod Prelude
pub mod Models
pub mod Ordering
pub mod Scheduler
pub mod Budget
pub mod Dispatch
pub mod Replan
pub mod Authguard
pub mod Backlog
pub mod Workspace
pub mod Replies
pub mod Agents
pub mod Workflow
pub mod Policy
pub mod Memory
pub mod Verification
pub mod Triage
pub mod Foreman
