-- ===== src/Lib.antt =====
-- A model of the server of a protocol for operations on files: who may open a session, who may do
-- what with a file, and what becomes of the database connections, storage figures and log entries
-- on the way.
--
-- A request reaches a handler, which checks it, asks the user manager or the database, and answers
-- with a header or raises. Handlers that need the database take a connection from a pool, by
-- priority, and give it back. The requests come over a stream, one after another; each names the
-- sizes of its parts, and a loop reads, authenticates and routes it and sends the answer. The
-- storage cache and the logger gather what is to be written and flush it in the background over
-- connections of the same pool.
--
-- The files:
--   Prelude     shared names; tests, lists, texts, dicts, integers; calls that may raise and keep the
--               state that they wrote (Prelude.Action); cachetools.TTLCache, a package that the server
--               only calls, as a record of operations with the documented laws (Prelude.Ttl)
--   Models      models/: session metadata, flags, roles, components of a request, successful responses
--   Errors      server/errors.py, with the Python and psycopg exceptions that reach a handler
--   Database    server/database/genesis.sql, models.py and utils.py: the tables as lists of rows, the
--               statements on them, and rules for what holds when a handler returns
--               (Database.Outcomes)
--   Access      server/permission_ops/permission_subhandlers.py; Access.Transfer is transfer_ownership,
--               which also works on the disk of Files
--   Authz       server/authz/user_manager.py and auth_subhandlers.py. Authz.Library is what it takes
--               from Python: the key derivation and the classes of characters, as parameters
--   Pool        server/database/connections.py; Pool.Sound has its runs as a step relation
--   Storage     server/file_ops/storage.py
--   Logs        server/logging.py
--   Files       server/file_ops: the disk (Files.Disk), the caches of open files (cache_ops.py, in
--               Files.Buffers), the operations of base_operations.py (Calls, Locks, Writing, Reading,
--               Tree), the handlers of file_subhandlers.py (State, Handlers, Amendment), and what they
--               do (Contents, Views, Writes, Appends, Unbuffered, Reads, Contention, Removal,
--               Served, Permitted)
--   Streams     asyncio's StreamReader as a buffer (Reader), and the padding of a component to its size
--               (Padding, Reads)
--   Dispatch    server/comms_utils (Incoming, Outgoing), the top handlers of server/authz,
--               server/permission_ops, server/file_ops and server/info_ops (Handlers), the tables of
--               server/dispatch.py (Routing) and the loop of server/callback.py (Callback); who passes
--               the top handlers (Gate, Passing), the rounds of the loop and its end (Shrinks, Ended,
--               Closed, Framing), and a file request from the client to its handler (Serving,
--               Exchange, Reading)
--   Info        server/info_ops/info_subhandlers.py and utils.py
--   Process     server/process/events.py, and the report of system_exit in server/process/control.py
--   Client      client/session_manager.py (SessionManager), the operations of auth_operations.py
--               (AuthOperations; InSync and LoggedIn put them against the server's handlers) and of
--               permission_operations.py and info_operations.py (PermissionOperations),
--               client/communication (Communication; Answers is its round trip with the server), and
--               of client/operations/file_operations.py: read_remote_file (Reading), against a server
--               that answers from the same bytes (Complete) and against handle_read (Remote), and
--               _send_amendment_chunks (Sending), and what it has sent (Sent)
--   Tests       runs on small inputs
--
-- State and calls. A method is a function from the state to a result and the state after it, and an
-- exception keeps what was written before it. PostgreSQL may refuse any statement, and so may the
-- proxy, whose lease may be over: the field `faults` of the back end says how the statements to
-- come fare, and is arbitrary in a theorem that does not say otherwise. Connections are opened in
-- autocommit mode, so each statement takes effect at once, also where the commit after it is
-- refused. The commits of publicise_file, hide_file, grant_permission, revoke_permission and of the
-- logger's flush are such calls; the refusal of any other commit is left out; the statements of one
-- `executemany` go through a pipeline and take effect together. The clock, random tokens and salts
-- are arguments. A timestamp is a number of ticks of which a second has a million. Counts and sizes
-- are integers, with the range of the database's INTEGER checked where it is written.
--
-- Interleavings. A handler is one call here; another task may run between its statements, which the
-- database's row locks order, and which shows as LockNotAvailable. The pool is modelled step by
-- step, since its faults come from interleavings. A call that waits on an empty queue gives no
-- result, and so does the logger's flush once no request for a connection is answered any more; how
-- many are answered is a field of the logger, which gives none of its connections back.
--
-- Files. The disk has the content of each path, and the field `refusals` says which of the calls to
-- come the operating system refuses. A writer holds the bytes that it has not passed on yet. A call
-- that passes on such bytes at a close is not refused, a tree is removed whole or not at all, and a
-- reader (io.BufferedReader, with a buffer taken to be of 8192 bytes) answers from what it has read
-- ahead, as far as that goes; the theorems on reads are about users of whom no cache keeps a
-- reader. Nothing expires from a cache within a call. What the other tasks do to the locks while
-- one waits for a lock is an arbitrary function of the locks for each round; the timeout of the
-- wait is the number of rounds before it.
--
-- Streams. What the peer sends within the time limit of a read is in the buffer already: a read
-- that wants more than that, and has seen no end of the stream, times out. Writes are never
-- refused. The conversion of components to JSON and back is a parameter, and so is whether a body
-- is serializable, which bytes that are no UTF-8 are not. JSON makes a text of the bytes in a
-- response: the client's session manager and its reading loop work on texts, with the conversion as
-- a parameter (Utf8). The client's lock on reading is held or free; nobody waits for it.
--
-- Fuel. The server's loop is given a number of rounds, of which one more than the unread bytes is
-- shown to be enough, since every round takes at least a byte. The client's two loops are given a
-- number of rounds, of which as many as the bytes that it wants or sends are shown to be enough;
-- acquire_file_lock counts down its attempts. The other loops go over lists or count down the
-- logger's retries.
--
-- Not modelled: TLS, boot-up, the loop of serve that starts the server again, the binding of
-- singletons by annotation, parse_body and serialize_json, which nothing calls, the maintenance
-- scripts, and of the client the command line, its parsers, what it displays, and the file
-- operations but for the two loops. Texts of log entries and of errors, addresses, times of
-- creation, and the server's clock in a response are left out of the records.
pub mod Prelude
pub mod Models
pub mod Errors
pub mod Database
pub mod Access
pub mod Authz
pub mod Pool
pub mod Storage
pub mod Logs
pub mod Files
pub mod Streams
pub mod Dispatch
pub mod Info
pub mod Process
pub mod Client
pub mod Tests
