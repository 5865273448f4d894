-- ===== src/Lib.antt =====
-- A model of the part of Ymir that finds issues and files them for triage
-- (ymir/jira_issue_fetcher), of the part that moves Jira issues and errata through the release
-- workflow (ymir/supervisor), of the queue of merge consolidation jobs
-- (ymir/common/merge_queue.py), of the lock that reproducer workers take on a test path
-- (ymir/common/reproducer_lock.py), of the sweep over postponed issues (ymir/sweep), of the queue
-- of delayed tasks (ymir/common/delayed_queue.py), and of the lock of an issue
-- (ymir/common/issue_lock.py).
--
-- The supervisor collects issues and errata (collect.py), keeps them as work items in a queue in
-- Redis (work_queue.py), and takes one item after another (main.py), on which a handler performs
-- one step: IssueHandler (issue_handler.py) or ErratumHandler (erratum_handler.py). A handler
-- reads from Jira, GitLab, the Errata Tool and Testing Farm, makes the requests that change
-- something there (jira_utils.py, errata_utils.py, baseline_tests.py), and returns when to look
-- again.
--
-- Effects.antt: code that changes a state and may raise. The state comes back beside an exception
--   too. Effects/Preserves.antt has one rule for each form of action.
-- Supervisor/Types.antt: supervisor_types.py and constants.py. Moments and spans are
--   microseconds.
-- Supervisor/Requests.antt: the requests that change something; the state of a handler is the log
--   of the requests made, the last one first.
-- Supervisor/Services.antt: what is read, as parameters: an answer may be anything that has the
--   type, may depend on the requests made before, and may be an exception.
-- Supervisor/Jira.antt, Supervisor/Errata.antt, Supervisor/Baseline.antt: the writing halves of
--   jira_utils.py and errata_utils.py, and baseline_tests.py.
-- Supervisor/IssueHandler, Supervisor/ErratumHandler: one function for each method, with a helper
--   for each case of a match or body of a loop. `self.issue`, which label_merge_if_needed
--   changes, is handed on as a value. Run/Traffic.antt of each has the requests that a step
--   makes.
-- Redis: the hash, the sorted set, the lists and the texts of Redis as interfaces, each with the
--   laws that the documentation of Redis gives.
-- Supervisor/WorkQueue: WorkItem with its text form, and WorkQueue with its Lua script.
-- Supervisor/Main.antt: process_once with one poll of the queue; the loop of
--   wait_first_ready_work_item is modelled with fuel, one unit for each poll.
-- Supervisor/Collect.antt: collect_and_schedule_work_items.
-- Supervisor/CompareXunit: compare_xunit.py, from what parse_xunit gives. The order in which
--   Python goes through a set is taken to be that of the list.
-- Sweep: base.py, with what a strategy decides and what a comment says as parameters; and the
--   strategies dependency.py, pr_pending.py, y_stream.py and no_patch.py (which has a loop of its
--   own), whose checks are functions that fit that parameter. Forges, Koji and the tool for
--   eligibility are parameters.
-- Buildroot: the buildroot checks of ymir/common/utils.py, over what Koji answers.
-- MergeQueue: the Lua scripts, each as one function on the hash (Scripts.antt), and the Python
--   functions around them (Queue.antt), with what other clients do between two scripts as an
--   argument.
-- ReproducerLock: the lock and the lists of waiting tasks (Lock.antt). The loop that promotes
--   tasks has fuel, one unit for each turn. What other clients do between the commands is left
--   out.
-- IssueFetcher: jira_issue_fetcher.py. Author.antt is _label_added_by_rh_employee, Existing.antt
--   _get_existing_issue_keys; Mark.antt and Push.antt are the two loops of push_issues_to_queue,
--   Consolidate.antt and its Pairs.antt the sorting and the submission of
--   _process_consolidation_labels, which files into the merge queue, and Run.antt is run. The
--   state is the lists of Redis, the hash of the merge queue and the log of changes.
-- Versions: version_utils.py. Regular expressions are functions on texts of ASCII.
-- Constants: the queues and labels of ymir/common/constants.py.
-- IssueLock: issue_lock.py. Each use of issue_lock is a state machine (Phase), and what happens
--   is a sequence of events: time passes, or a use enters, beats or leaves, each with one command
--   to Redis, which may fail or be done with its answer lost. A beat may come at any time; the
--   third of the time to live that the heartbeat sleeps is not modelled, nor is a beat under way
--   while the block is left.
-- DelayedQueue: delayed_queue.py, with a moment in microseconds as a score.
-- Examples: concrete services, and a sorted set, a hash, lists and texts that have the laws, and
--   the theorems at concrete inputs.
--
-- Sets and dictionaries are lists in the order in which they are gone through; a dictionary that
-- the program builds from keys that Jira keeps distinct is the list of its entries. Log messages
-- are left out, as are HTTP, retries, sessions, the decoding of answers, the agents (whose
-- answers are parameters), the lock ids, the parsing of comments, the API, the command line and
-- the tools.
pub mod Common
pub mod Effects
pub mod Redis
pub mod Supervisor
pub mod Sweep
pub mod MergeQueue
pub mod ReproducerLock
pub mod DelayedQueue
pub mod Versions
pub mod Constants
pub mod IssueFetcher
pub mod IssueLock
pub mod Buildroot
pub mod Examples
