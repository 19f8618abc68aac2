-- ===== src/Lib.antt =====
-- The core of a mobile money simulator: replicated accounts whose balance is a checkpoint and a
-- log of deposit and withdrawal events, kept by nodes that exchange events and agree on
-- withdrawals by two-phase commit or by a quorum.
--
-- The parts, each with its source file:
--   EventLog     src/core/event_log.py           the events of an account and balances from them
--   Checkpoint   src/core/checkpoint.py          checkpoints and their storage
--   Commit       src/core/coordinated_commit.py  the coordinator's state in two-phase commit
--   Quorum       src/core/quorum_replication.py  one node's state in the quorum protocol, with
--                src/core/quorum.py              the validator of quorums
--   VectorClock  src/distributed/vector_clock.py  causality between servers
--   Wal          src/core/wal.py                 the write-ahead log
--   Node         src/core/distributed_node.py    one node: event ids, deposits, withdrawals, and
--                                                its side of the two protocols
--   Cluster      src/core/distributed_node.py    the handlers in which nodes call each other: the
--                                                sync, the propagation, and the withdrawals
--   Events       src/core/events.py             the events of the server with tables, and their store
--   Gossip       src/distributed/gossip.py      the peers and the clock of a server
--   Database     src/models/__init__.py         the tables
--   Operations   src/core/operations.py         withdrawals, deposits, transfers and locks on them
--   Replication  src/distributed/replication_manager.py  batches of events, and received events
--   Idempotency  src/core/idempotency.py        the table of requests
--   Worker       src/core/async_messaging.py    queued operations, with their routes of
--                src/api/routes.py
--   Hashing      src/distributed/hashing.py     which server has a phone number
--   Conflicts    src/core/conflict_resolver.py  which of two conflicting events is kept
-- The program has two models of a server. In the first, a node owns an event log, a checkpoint with
-- its storage, a coordinator, a quorum manager, the funds that prepared transactions have locked
-- and their prepared events. In the second, a route enters a request and queues a message, a worker
-- performs the operation on the tables of the server, the operation stores an event and queues it
-- for replication, and the other servers apply what they receive. Prelude and Dict hold what the
-- parts share: integers, lists, sorting, and Python's dict as an association list in insertion
-- order.
--
-- A class is a record, and a method a function from the record to the new record and what the
-- method returns, under the method's name. Methods that a node calls on itself with its lock held
-- are functions of their own: `withdraw_local` is `withdraw` after its sync, `p2p_apply` is step
-- 4 of `p2p_withdraw`, `commit_event` is the body of `commit_coordinated_withdraw`, and `prepare`
-- and `p2p_vote` are `prepare_for_coordinated_withdraw` and `p2p_receive_withdrawal_request` once
-- the sync has been merged by `merge_remote`. Cluster composes these over a table of the nodes by
-- their ids, in which a node's remote nodes are keys: `withdraw`, `coordinated_withdraw` and
-- `p2p_withdraw`, with their loops over the remote nodes. A remote node that is not in the table
-- stands for one whose calls raise, which the source catches. Each file opens with what it takes
-- from its source.
--
-- Amounts (Python's Decimal) are whole numbers of the smallest unit, and integers have no bound,
-- as in Python. The clock's readings, the uuids of transactions, and the number that `hash` gives
-- for a node's id are arguments. The texts of decimals and dates are a `Codec`, with the law that
-- a printed value is read back. Methods that print a result return it as a `Reply` with the
-- values that the text holds. Every loop is over a list, but for
-- the salting of colliding positions in Hashing, whose fuel is the number of salts to try:
-- `free_position_found` shows that it is enough when one of these salts is free.
--
-- A SQLAlchemy session is the state of the tables: a commit keeps the new state, a rollback the
-- state before the call, and a unique or missing value makes the commit raise. Event sourcing is
-- outside the session. The ids that the database gives, the answers of other servers over HTTP, and
-- the texts of numbers are arguments. The replication loop and the workers take turns, each of which
-- is a step of the model.
--
-- Not modelled: log lines and texts for people; threads, in whose place each call runs alone and
-- a flag says whether the node's lock can be had; a call between nodes that raises half way;
-- the nodes of replicas and the replies of the server discovery in hashing.py; the system that wires
-- the nodes; the other HTTP routes, discovery, USSD and the clients.
pub mod Prelude
pub mod Dict
pub mod EventLog
pub mod Commit
pub mod Quorum
pub mod VectorClock
pub mod Wal
pub mod Checkpoint
pub mod Node
pub mod Cluster
pub mod Events
pub mod Gossip
pub mod Database
pub mod Operations
pub mod Replication
pub mod Idempotency
pub mod Worker
pub mod Hashing
pub mod Conflicts
