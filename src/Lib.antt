-- ===== src/Lib.antt =====
-- night-voyager plans study abroad for a family and an advisor. A worker leases a planning task,
-- an adapter returns an input as bytes, the planning policy evaluates it into routes, an advisor
-- reviews and grants routes, the family decides, and the decision becomes a timeline whose
-- execution is followed. Facts of the case change only by confirmation. This library models the
-- code that decides in each of these steps, in Python under src/night_voyager of the repository
-- and in SQL under migrations/versions, and proves what makes it correct.
--
-- Parts and files, as `module: source (correspondence)`:
--
--  Base: the idioms of Python that the parts share (equality as an interface, lists as
--    sequences, sets and dicts, exceptions as `Result`), with their laws.
--  Calendar, Decimal: `datetime.date` and `decimal.Decimal` as the code uses them.
--  Planning: src/night_voyager/planning/{models,trusted,policy,transitions,mixed,synthetic}.py and
--    intake_fixture.py. Contract, Provenance and Routes hold the parts of `evaluate_planning_run`,
--    which Policy composes; Budget and Scope hold validators; MixedBaseline, on Rows, holds
--    `validate_governed_mixed_payload_baseline`, and Materialize the synthetic input that a snapshot
--    gives. The other modules prove.
--  Identity: src/night_voyager/identity/models.py.
--  Skills: src/night_voyager/skills/{models,registry}.py (`SkillRuntimeRegistry`).
--  Tasks: src/night_voyager/tasks/{models,policy,worker,streaming}.py and, of adapters/,
--    protocols.py, router.py and deterministic_planning.py (Adapter and Deterministic). Payload holds
--    `validate_adapter_payload`, Worker, on Turns, `TaskWorker.run_once`, and Streaming the loop of
--    the event stream.
--  Decision: src/night_voyager/decision/{models,policy,application}.py. Application holds
--    `DecisionService`, Intake holds `int` and `str.split` on the text of an intake.
--  TimelineExecution: src/night_voyager/timeline_execution/{models,policy}.py.
--  Collaboration: src/night_voyager/collaboration/{models,policy}.py.
--  Leases: the functions in SQL that migrations/versions/ defines on a planning task: 0004 (start,
--    heartbeat, failure, cancellation), 0008 (the claim), 0007 and 0012 (the finalized result).
--    Rows holds the tables, Calls, Claim and Finalize the functions, Steps the relation of their
--    successful calls, which Effects reduces to what each may write, and Failures the report of an
--    adapter's failure, as the policy of Tasks decides it. The other modules prove.
--  TimelineAuthority: the functions in SQL of
--    migrations/versions/0014_timeline_execution_authority.py. Rows holds the tables, Gate the tests
--    that the functions on a checkpoint share, Writes the writes, Start, Attest, Verify, Reassess and
--    Read the functions, Steps the relation of the successful calls, Calls the calls as data. The
--    other modules prove.
--  FactAuthority: the functions in SQL that propose and verify a fact of a case,
--    `propose_memory_candidate` of migrations/versions/0007_conversation_and_memory.py and
--    `verify_memory_candidate` of 0017_controlled_intake_revision.py. Rows holds the tables, Values
--    the check of a value, Propose the proposal, Blocks, Verify and Confirm the verification, Steps
--    the relation of the successful calls. The other modules prove.
--  Tests: concrete inputs, from the repository's fixture of the golden case, and runs of the model.
--
-- How the parts interact: Tasks.Worker calls the registry of Skills, the router, the payload check
-- and the evaluation of Planning, in the code's order; the calls that a turn of the worker makes
-- are those of Leases; Decision.Application calls Decision.Policy; the timeline that it builds is
-- what TimelineExecution and the `start_timeline_execution` of TimelineAuthority start from; what
-- TimelineAuthority reads is what the policy of TimelineExecution checks; Collaboration makes the
-- revisions that Planning reads, as FactAuthority stores them, and its intakes are those that
-- Decision.Policy reads.
--
-- State and effects: the functions are pure, but for the worker, the decision service, the leases
-- and the two authorities. A function of the database is a function of the rows that it reads and
-- of the moment at which it runs, which it reads once; what it raises is an error, and leaves the
-- rows as they were. Its row locks make it one step, so that the calls of several workers are a
-- sequence of steps in any order. One turn of the worker is the list of the calls that it makes,
-- given the answers of the repository and the adapter: a returned value, or one of the exceptions
-- that the code tells apart. The event that a lost lease sets is one Boolean, read where the code
-- reads it. The event stream is followed for as many turns as pages are given, so its loop needs
-- no other fuel, and the result on any number of turns is a result on every prefix of the stream.
-- The decision service gives back the call of `repository.decide`, or the error. An exception is
-- an error of `Result` with its message; a failed assertion of the evaluation is `none`; a missing
-- key of a dict, which no handler catches, is the error "KeyError", and an exhausted `next` is
-- "StopIteration".
--
-- Numbers: a UUID and a moment are natural numbers, and money is a natural number of minor units,
-- as the models require. Where a raw value may be negative it is of the type `ℤ`. A `Decimal` is a
-- coefficient over a power of ten, rounded half-even to 28 digits by the products and sums of the
-- default context; the fuel of `excess_digits` is the coefficient itself, which has no more digits
-- than its value. The exponent limits of the context are not modelled. Dates keep the checks of
-- `date(...)`, and their differences are those of proleptic Gregorian ordinals.
--
-- Parameters: bytes, their size and `json.loads` on them, the validations of pydantic from raw
-- values to the typed inputs, the frozen fixtures of planning/, which are read from files of
-- pinned digests, and the answers of the database; for the functions of FactAuthority, the regular
-- expressions on texts, the identity of the synthetic source pack and the outcome of
-- `assert_controlled_intake_source`. Of a manifest entry the fields that the registry reads are
-- modelled, and the other ones are a single text that is compared.
--
-- Not modelled: SQL and its adapters but for the functions of Leases, TimelineAuthority and
-- FactAuthority (the constraints of their tables, which may refuse a write, are not run), HTTP,
-- the browser client, logging, hashing of JSON, the texts that regular expressions screen
-- (`validate_safe_text`), digits and spaces of Unicode beyond ASCII in `int`, the error of
-- encoding a lone surrogate, and the modules of dra/, evidence/, evidence_loop/ and
-- connected_demo/.
pub mod Base
pub mod Calendar
pub mod Decimal
pub mod Planning
pub mod Tasks
pub mod Identity
pub mod Decision
pub mod TimelineExecution
pub mod Skills
pub mod Collaboration
pub mod Leases
pub mod TimelineAuthority
pub mod FactAuthority
mod Tests
