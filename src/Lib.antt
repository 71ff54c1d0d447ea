-- ===== src/Lib.antt =====
-- The event core of DAY-JA-VIEW: how the prices of stocks become the metrics of market themes,
-- how a theme that may be moving becomes a canonical Event, how the Event moves through its
-- life, and what becomes of an input or a command that comes again.
--
-- The parts and their files:
--
-- packages/domain/state.py is Domain/State.antt: the lifecycle, reconciliation and review
-- statuses, the tables of allowed transitions (`_LIFECYCLE_TARGETS` and the two others are
-- `lifecycle_targets` and so on) and `transition_lifecycle`, `transition_reconciliation` and
-- `transition_review`. Domain/State/Graph.antt draws the tables as relations. Of
-- packages/domain/models.py, Domain/Market.antt has the market observations with their checks,
-- Domain/References.antt the stock references, Domain/Reasons.antt the reasons and flags, and
-- Domain/Membership.antt the membership snapshots of a theme and their selection.
-- packages/domain/coverage.py is Domain/Coverage.antt. Domain/Decimal.antt and
-- Domain/Arithmetic.antt are Python's `Decimal`: its form, its order, and its sums, products
-- and quotients in a context of a given precision.
--
-- packages/realtime/hysteresis.py is Realtime/Hysteresis: Models has the policy, the inputs
-- and the state, Reduce has `evaluate_hysteresis` and `_transition`, branch by branch. Causes
-- says why a status moves or stays; Consistency, Decisions, Streak and Moves are about single
-- evaluations and about sequences of them.
--
-- packages/realtime/models.py and packages/realtime/hot_state.py are Realtime/Models.antt and
-- Realtime/HotState: Store has `HotStateStore.apply` and `_record_cursor`, Steps the cases of
-- one call, Invariant, Soundness, Progress and Runs what holds of the store over calls.
--
-- packages/events/models.py, packages/events/memory.py, packages/events/outbox.py and
-- packages/events/writer.py are Events/Lineage.antt, Events/Models.antt, Events/Digest.antt,
-- Events/Store.antt, Events/Outbox.antt and Events/Writer.antt. The hysteresis decides that an
-- Event should move; `EventWriter.write` carries the command out on the store, in one
-- transaction that also writes the state log, the outbox message and the receipt.
-- Events/Writer/Changes.antt has the guards and the new values that its methods share.
-- Events/Writer/Effects.antt says what a command changes, Commit and Atomic are about the
-- transaction, Replay about a command that comes again, and History, WellFormed, Preservation
-- and Reachable about the state logs.
--
-- The delivery of the outbox is Events/Delivery.antt: `claim_pending`, `mark_published` and
-- `release_after_failure` of packages/events/memory.py, and `OutboxPublisher` of
-- packages/events/outbox.py over a transport that is a parameter with a state of its own and
-- may refuse any message. Claims and Leases are about what is claimed, Publishing and Batches
-- about the loop, Answers about what becomes of a message by the answer of the transport.
--
-- A checkpoint of the hot state, `checkpoint` and `restore`, is
-- Realtime/HotState/Checkpoint.antt; Agreement says which stores cannot be told apart by their
-- lookups, and Restore is about the round trip.
--
-- packages/calculations is Calculations: Policies; Weights with `calculate_capped_weights`;
-- Turnover with `calculate_theme_turnover`, of which Turnover/Theme has the part over all
-- members; StockReturn and ThemeMetrics with `calculate_theme_metrics`, whose last parts are
-- ThemeMetrics/Issues and ThemeMetrics/Theme; AttentionDay with `evaluate_attention_day`;
-- Intervals and Attention with `build_attention_timeline`. Capped is about the loop of the
-- weights, Earlier, Sound and Report about the turnover, Known, Capitals and Restrained about
-- the metrics, and Order, Cover, Absence, Evidence, Timeline and Days about the intervals of
-- attention.
--
-- packages/realtime/aggregation.py is Realtime/Aggregation: `VersionedThemeCatalog`,
-- `mark_stock` and `pending` of `DirtyThemeAggregator` in Aggregation.antt, `drain` in Drains,
-- the checkpoint in Resume. A drain reads the hot state of its stocks and hands it to a
-- calculation, which is an argument; `calculate_theme_metrics` is one. Catalog is about the
-- affected themes, Marks about `mark_stock`, Batches about `drain`, and Lossless and Timely
-- about their composition.
--
-- packages/operator is Operator: Models, Repository with `InMemoryOperatorRepository`, Pages
-- with `_paginate`, and Console with `OperatorConsole`. Commands and Outcomes say how a
-- command can end, Runs and Receipts what holds over sequences of commands.
--
-- packages/catalyst is Catalyst: Models, Policy with `decide`, Revisions with
-- `EvidenceRevisionStore`, and Gate with `SupplementalSearchGate`. Strength is about the
-- policy, History and Numbering about the revisions, Bounds and Cooldown about the gate.
-- `str.casefold` is a parameter, as the tables of Unicode are not part of the repository.
--
-- packages/identity is Identity: Models; Repository with `InMemoryIdentityRepository` (State,
-- Accounts and Saved); Sessions with `authenticate`, the roles and the checks of a request's
-- origin and tokens; and Tickets with `logout`, the tickets of the realtime channel and the
-- end of an account. Guards is about who may send a command of the console. Operations has
-- sequences of the repository's calls; Spent, Lifetimes and Endings are about what stays
-- consumed, revoked or deleted. Each reading of the clock, each text of the token source and
-- the digest of a token is an argument.
--
-- packages/events/reconciliation.py is Events/Reconciliation.antt: `reconcile_after_close`
-- sends its commands to the writer. Outcomes is about the store after a run, Rises about the
-- confirmations and the Events that it picks, Settled about how the Events are sorted. The two
-- functions of Python's calendar that it calls are a parameter.
--
-- How the model stands for the code:
--
-- A method that mutates an object and may raise is a function from the state to a result and
-- the state after it (Prelude/Exec.antt), so that what is written before an exception is seen
-- after it. A `dict` is an association list in insertion order (Prelude/Dict.antt). The locks
-- make each method one step. A frozen dataclass is a record, and its `__post_init__` a check:
-- a caller that builds the object runs the check (`construct`), and a theorem on an object
-- that the caller was handed has the check as its hypothesis. `replace` runs the checks again;
-- where the code only replaces fields that no check reads, or a check repeats what its
-- argument has passed, the model leaves the run out.
--
-- An aware `datetime` is a number of microseconds since a fixed instant, a `date` a number of
-- days, a `timedelta` a number of microseconds; the checks refuse negative versions, counts
-- and durations, so all of them are natural numbers, without an upper bound as in Python. A
-- text is a sequence of Unicode scalars, and is blank where `str.strip` would empty it. The
-- SHA-256 of a canonical JSON text is a parameter: the two fingerprints of packages/realtime,
-- and `Hashing` in Events/Digest.antt, from which the names of Events, messages and commands
-- are derived as the code derives them. No theorem assumes that digests differ. The exponent
-- of a `Decimal` has no bounds, and a time of day is a number of microseconds. Loops of the
-- code are structural recursions, except for three that take fuel: the client in
-- Operator/Pages.antt, with a request for each element and one at least; the capping of
-- weights, with a round for each stock; and the number of digits of a coefficient, with the
-- coefficient itself.
--
-- Not modelled: the dictionary forms of the records, the PostgreSQL stores (SQL handed to a
-- driver), the snapshots of packages/realtime/snapshots.py, the reading of the vendor feed for
-- packages/events/reconciliation.py, the adapters of market data, the vendor feeds, the
-- ontology, the login and the saved items of the sessions' service, the matching of news to
-- themes, the HTTP interface, the workers and the web client.
mod Prelude
pub mod Domain
pub mod Calculations
pub mod Events
pub mod Realtime
pub mod Operator
pub mod Catalyst
pub mod Identity
mod Tests
