-- ===== src/Lib.antt =====
-- onboard-core keeps, for the systems that a firm looks after, what is known of them, where it is bound to
-- what was observed, and whether it may still be relied on. This library models the parts that decide
-- that, and proves what each promises.
--
-- The parts and how they interact:
--
-- A store is a set of tables (Store.Tables). Knowledge items, identities, bindings and probe definitions
-- are parent rows; what is said of a parent stands in its revisions, which are only ever appended. The
-- revision writer (Revisions) is the one way to append. It compares the head that its caller expects
-- with the current one, inside one unit of work, and moves the head of the parent. A verified revision
-- makes its item fresh, and a retirement is an append that makes the item retired. Freshness reads the
-- item, the heads of its bindings and the sensors of its scope through a port, and resolves a state and
-- the rule that decided it. Coverage reads identities, bindings, items and boundaries through another
-- port, says which identities are covered and why the others are not, compares that with the cache that
-- the identities carry, and rebuilds the cache. Firms, engagements, systems and environments are the
-- scope of all this (Scope): each is named by a slug under its parent, and a system has a lifecycle
-- whose transitions are logged as events. Long jobs run as workflows (Workflow), whose steps are
-- recorded in a journal, retried on a schedule and not run again once they have returned.
--
-- Which file models which part:
--
-- Obs: packages/adopt-obs/src/adopt_obs/errors.py. A raised AdoptError is its code, in a Result.
-- Model: packages/adopt-model/src/adopt_model/_enums.py and _tables.py, and the resolved scope of
--   packages/adopt-scope/src/adopt_scope/resolve.py. A row has the columns that a modelled operation reads
--   or writes. A time is a number of microseconds.
-- Store: packages/adopt-store/src/adopt_store/sqlite/store.py. A table is the list of its rows in the
--   order of insertion; a statement maps a store to a result with the store after it; a transaction that
--   fails leaves the store with which it began.
-- Revisions: packages/adopt-store/src/adopt_store/revisions.py, and the statements that it runs, of
--   packages/adopt-store/src/adopt_store/sqlite/records.py. Families has the families and the drafts,
--   Statements the inserts, the heads and the updates, with the keys and references that the schema
--   declares, Writer the writer: append_revision, retire and create_item. Inserts and Heads say what the
--   statements change, Rows has the rows of the drafts, Chains what an append does, Invariant that chains do not fork, Affirmation what
--   becomes of the freshness of an item.
-- Scope: packages/adopt-scope/src/adopt_scope/slug.py, lifecycle.py and hierarchy.py. Slugs has the rules
--   for slugs, with the pattern matched as the module re does, Statements the statements of the scope
--   records, Lifecycle has transition, Hierarchy the creations and resolve. Events, Answers and
--   Refusals, over Insertion, say what a transition writes and when it fails, Silent relates the states of
--   systems to the log, Steps has the operations as a step relation, Reach what holds in all stores that they lead to, and Newlines what a valid slug is.
--   Paths parses and renders scope paths, Segments and Renders relate the two, Grammar says
--   which texts are paths.
-- Freshness: packages/adopt-freshness/src/adopt_freshness/resolve.py and records.py. Sensors has
--   sensor_effective_health and first_unhealthy, Resolve the port and resolve_freshness. Bindings is about
--   the load-bearing bindings, Rules what they say as it reads on the rows, Silence about the
--   sensors, Precedence about the whole resolution, and Propagation about the bindings that have no part in it.
-- Coverage: packages/adopt-coverage/src/adopt_coverage/recompute.py, records.py and cache.py. Reasons has
--   the reasons as sets, Evaluate the six inputs, Recompute the recomputation and the rebuild of the
--   cache. Blockers is about empty sets of reasons; Verdict, Disagreements and Cache are about the three.
-- Workflow: packages/adopt-workflow/src/adopt_workflow/api.py, inproc/journal.py and inproc/client.py.
--   Retries has the retry policy and its delays, Journal the file with JSON as a parameter, Steps dedupe
--   and the running of a step over the records of the journal, with the body of the step as a
--   parameter. Torn is about what the file reads back, Replay about steps and effects that were
--   recorded, Schedule about the delays. Api has the statuses and handles, Bodies a body as a
--   tree of its calls of steps with the driving of a run, and Client the calls of the
--   client. JSON is a parameter of Steps, Bodies and Client: what it reads back of a value that it
--   writes, if it can write it. Resume is about a run that is driven again after a crash, over Quiet;
--   Recovery about recover, over Arguments, Written, Settling and Adds; Starts about start under one key.
-- Identity: packages/adopt-identity/src/adopt_identity/uri.py. Texts has what it does with texts, Uris
--   build_uri, parse_uri and validate_uri with NFC and urllib as parameters, Segments the lemmas on
--   slashes and segments, RoundTrip the two directions.
-- Map: packages/adopt-map/src/adopt_map/moves.py. Moves has detect_moves over parse_uri, Keys and Pairing
--   the lemmas on keys and rows, Evidence what a move stands for, Accounting what is reported.
-- Probe: packages/adopt-probe/src/adopt_probe/conflict.py. Conflicts has conflicting_intents, Found its
--   dictionary, Join its loops, Contradictions what it reports.
-- Ports: packages/adopt-store/src/adopt_store/sqlite/records.py, the read ports that freshness and
--   coverage take, as functions of the tables of a store. Queries has the joins and conditions, Freshness
--   and Coverage the two ports, Keyed what their answers depend on. Retirement joins the revision writer
--   with the resolution, Rebuild the cache of coverage with the recomputation, each over one store.
-- Base: what the others share, that is tests, lists, the order of texts and sorting by a key.
-- The files named Samples hold small stores and run the code on them.
--
-- Loops are structural recursions over lists, so that no fuel is needed. The ids that are minted and the
-- readings of the clock are arguments. The read ports are records of functions, as the source declares
-- them; a mapping is a function to an Option, none for a missing key.
--
-- Not modelled: read-only stores and the locks of the database, messages and hints of errors, and the
-- packages that call language models, parse source files, or print.
pub mod Base
pub mod Obs
pub mod Model
pub mod Store
pub mod Freshness
pub mod Coverage
pub mod Revisions
pub mod Scope
pub mod Ports
pub mod Identity
pub mod Map
pub mod Probe
pub mod Workflow
