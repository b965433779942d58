-- ===== src/Lib.antt =====
-- Verification of the Python runtime of agents-at-scale: a service that lets a language-model agent
-- change flight bookings. A chat request is checked by the API and queued
-- (langgraph-python/app/jobs, langgraph-python/app/platform/rabbitmq.py); a worker runs the agent
-- on it, a graph of nodes that asks the user to confirm a selection (langgraph-python/app/agent);
-- the airline domain checks the selection against its rules and carries the change out in one
-- database transaction (langgraph-python/app/airline).
--
-- Prelude: numbers, lists, integers (ℤ over the native numbers) and Python's equality.
--
-- Airline: the domain. Models and Schemas hold the rows and records of
-- langgraph-python/app/airline/models.py and schemas.py, Errors the exceptions. Database is the
-- tables and a transaction over them (the monad Tx), which commits or rolls back. Validation is
-- validate_rebooking_selection of service.py; Validation/Rules says the rules without their order,
-- Validation/Decision compares the two. Snapshot and Rebooking are the class of
-- repository/rebooking.py: snapshot is _snapshot, find_target _target, lock_fares _lock_fares;
-- get_snapshot, execute and verify have their names. Service is the half of the class Service that
-- uses it, over the interface RebookingRepository; Lookup is the other half, the searches for
-- options and credits, with the read-only repositories. Below Rebooking: Effects, Execution,
-- Reading and Tables take a committed transaction apart; Seats, Money, Outcome, Success and Repeat
-- state what it does, Held and Locks which rows it locks and in what order. Sql is the other
-- implementation of RebookingRepository: Sql/Queries holds the statements of
-- langgraph-python/app/airline/repository/sql/queries.py that a rebooking runs, Sql/Rebooking the
-- class of sql/rebooking.py; Sql/Lookup and Sql/Details are its other statements, rows.py and the
-- repositories over them. Details is get_details_by_booking_reference of the ORM. View is what both
-- promise, an operation on a view of the tables; Access is the choice between them in
-- langgraph-python/app/main.py.
--
-- Jobs: Json and Request are the payloads and their two checks
-- (langgraph-python/app/jobs/router.py, validate_request of langgraph-python/app/jobs/service.py).
-- Platform is what a job calls outside the program: the record World says what each call answers
-- and which calls raise, depending on all calls before. Endpoint is publish_chat of router.py, over
-- Request and Publish. Worker is consume, _process, _finish, _retry, _delay and _dead_letter of
-- JobService; Publish is publish. Worker/Rules walks through the worker once, for any assertion
-- that its calls keep, as Worker/Discipline says; Settlement, Custody, Attempts, Conversation and
-- Repeats use it. Broker is the choice of retry queues of
-- langgraph-python/app/platform/rabbitmq.py, and Envelope the queued text of a job. Store is the
-- class JobStore of langgraph-python/app/platform/redis.py, method by method, over the commands of
-- a Redis server that is a parameter; Store/Holding lets any number of workers write to it in turn.
--
-- Agent: State (langgraph-python/app/agent/state.py), Nodes and Outcomes
-- (langgraph-python/app/agent/nodes) and Graph (langgraph-python/app/agent/graph.py), whose edges
-- are a step relation. The model, the user and the airline answer anew in every step, by the record
-- Answers. OpenRouter is the client of langgraph-python/app/platform/llm/openrouter.py, one such
-- model.
--
-- Config: langgraph-python/app/config.py.
--
-- Bench: what the load generator (bench/loadgen.py) gives each of its processes, and the capacity
-- that bench/report.py finds. Its conversations and its statistics over floats are not modelled.
--
-- Ids and times are numbers, amounts are whole cents. No loop needs fuel: all recursion is on
-- lists, numbers or derivations. Transactions run one after another; that SQLAlchemy may hand out
-- rows as it read them before a lock was granted is not modelled. Locks are seen in transactions
-- that commit. The columns' bounds (INTEGER, NUMERIC(12, 2)), on which the server raises, are not
-- modelled. An id is a UUID, whose text has a fixed width, so that the order of the texts is that
-- of the numbers. An envelope whose fields have other types than the worker expects, the
-- cancellation of a task, logging, and the process's start are not modelled. The Go runtime
-- (adk-go) is another program.
pub mod Agent
pub mod Airline
pub mod Bench
pub mod Config
pub mod Jobs
pub mod Prelude
