-- ===== src/Lib.antt =====
-- Smartwatch Clank watches the catalogues, support pages and feeds of smartwatch makers. A collector
-- returns observations; the runner compares them with the last healthy catalogue of the collector,
-- stores the run and its discoveries, and queues notifications in the transaction of the discovery;
-- a drain sends what is queued. Qualification epochs say under which material evidence counts, and
-- the inspection of the schema says whether a database file may be opened at all.
--
-- The modules, and the code that each is about:
-- Models: core/models.py. A datetime is a number of microseconds, a dict of JSON values a document.
-- Platform: what the standard library and the host give (digests, the reading and writing of dates
--   and numbers, tracebacks); every theorem holds for all of them.
-- News: the cascade and the grades of classifiers/news.py. News/Phrases: what decides it.
--   News/Persist: intelligence/news.py.
-- Diff: core/diff.py (`diff_catalogues`). Diff/Exact, Diff/Kinds: what is reported, and as what.
-- Health: core/health.py (`assess_catalogue`) and the configuration of core/runner.py, with ratios
--   as fractions. Health/Bounds: its bounds.
-- Registry: core/collector.py, core/registry.py and collectors/registry.py. Registry/Selection and
--   Registry/Isolation: the scopes, and the isolation of a failing OEM.
-- Qualification: core/qualification.py.
-- Store: core/store.py, its tables as lists of rows. Store/Runs, Store/Epochs, Store/Outbox,
--   Store/Evidence and Store/Settings have one function for each operation on their tables.
-- Runner: core/runner.py (`Runner.run`, `run_selected`, `_run_one`). Runner/Outcomes shows that a
--   run ends in one of two ways, Runner/Silence what each of them keeps.
--   Runner/Machine is an abstract machine that forgets everything but materials and baselines,
--   Runner/Refine the refinement; Runner/Consistent, Runner/Each and Runner/Returns are about the
--   tables after the runs of an invocation, and about the return of those runs.
-- Lock: core/lock.py, over the state of the kernel's advisory lock. Lock/Worlds: processes that take,
--   release and lose the lock, as a step relation; Lock/Changes, Lock/Exclusion: what they can do.
-- Continuity: core/continuity.py, its file as a text. Continuity/Seeds: the seed events. The other
--   children follow a record from the event to the line and back.
-- Samsung: the reconciliation of intelligence/samsung.py; Samsung/Ledgers: what it stores;
--   Samsung/Candidates: what becomes of the candidates.
-- Qc: qc_archive.py. Qc/Decisions: its rows; Qc/Files: the migration of its file.
-- Delivery: notifications/delivery_policy.py (Delivery/Policy) and notifications/discord.py
--   (Delivery/Embed, Delivery/Discord; Delivery/Direct for the test notification and
--   Delivery/Preview for the preview). Delivery/Foreseen and Delivery/Predicted compare the
--   preview with a drain, Delivery/Returns is about what raises; the other children prove what a
--   drain does to each row.
-- Local: local_collection.py. Local/Turns: its requests and threads as a step relation.
-- Operations: `scope_report` and `health_report` of operations.py, and core/scope.py.
-- Schema: core/schema_state.py, and `_admit_compatibility` and `_migrate` of core/store.py.
--   Schema/Verdicts, Schema/Untouched: what a verdict means, and which file is admitted as it is.
-- Samples: concrete values and examples.
-- All paths start at src/smartwatch_clank. The state of the program is the record `Store`; an
-- operation takes and returns it, and a transaction that raises leaves it as it was.
--
-- Bounds: numbers are natural numbers of any size, as in Python; no definition needs fuel, since every
-- loop runs over a list. What differs at each call (the clock, UUIDs, the answers of the network) is
-- an argument: a `Reading` for a run, a `Session` for a drain.
--
-- An instant counts from the beginning of the year 1 and is in range up to `last_instant`; a stored
-- time whose time in UTC is out of range raises, as does a floor that would be later.
--
-- SQLite is taken not to fail, other than by a constraint of a table or in a migration; the files
-- that the program reads are UTF-8. The construction of a Request for the webhook, which raises for a
-- text that is no URL, belongs to the sender of a `Session`, which may raise.
--
-- Not modelled: the parsing of pages and feeds, the command line and the dashboards, the configuration,
-- the local operator and the soak process (files, processes and the environment), the other reports of
-- operations.py, and the texts of log messages and of
-- schema verdicts. The json module, as the continuity registry uses it, is a parameter.
pub mod Base
pub mod Models
pub mod News
pub mod Diff
pub mod Platform
pub mod Health
pub mod Registry
pub mod Qualification
pub mod Store
pub mod Runner
pub mod Lock
pub mod Operations
pub mod Local
pub mod Samsung
pub mod Qc
pub mod Continuity
pub mod Delivery
pub mod Schema
pub mod Samples
