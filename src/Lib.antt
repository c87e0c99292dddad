-- ===== src/Lib.antt =====
-- Verification of higgs, a supervisor of local language-model workers with a fleet of nodes.
--
-- The program runs one worker process per model, streams the text that a worker generates to its
-- clients, downloads models, and admits callers by API keys and nodes by pairing. The modules
-- follow the source files, and each gives the operations of one part as functions on its state:
--   - Base: names shared by all, tests on numbers and texts, lists, association lists, a stable
--     sort.
--   - DeltaQueue (src/delta_queue.rs, ChatDelta of src/worker/engine/mod.rs): the queue between a
--     worker's reader and one stream. `State` is the shared state behind the mutex; send, recv,
--     try_recv and the two drops are one critical section each, so that a sequence of calls is
--     every interleaving of a sender and a receiver.
--   - Demux (ReplyDemux of src/actor.rs): the waiters for responses and the sinks of streams, by
--     request id. A sink is a DeltaQueue. Each channel has an identity, so that a receiver can be
--     followed after the map has dropped its sender.
--   - Supervisor (send_request, on_worker_death and install_writer of src/supervisor.rs): the path
--     of a request against the death of its worker, on a Demux. A step is what a task does between
--     two lock acquisitions, and a run is any list of steps. Supervisor.Lifecycle is the start,
--     stop and restart of worker processes (do_spawn, stop, reader_task, attempt_restart,
--     install_child): one caller and any number of readers, of which each action makes the next
--     access to what they share; Lifecycle.Stopped and Lifecycle.Leaks have the theorems, the
--     modules between them the invariant. Supervisor.Replay is the replay of the last load after a
--     restart (replay_load, record_last_load, clear_last_load).
--   - Rpc (src/rpc.rs, write_frame and the reading loop of handle_node_stream in src/node/mod.rs):
--     the frames between the processes. Rpc.Reader is the bounded reader on any sequence of
--     answers of the buffered stream, Rpc.Codec the frames with encode and decode; the JSON texts
--     of serde_json are the parameters to_string and from_str.
--   - LoadLadder (src/load_robustness.rs, run_oom_ladder of src/api.rs, NodeLoadParams of
--     src/remote.rs): the retries of a load that ran out of memory. The load is a function of the
--     number of the attempt.
--   - Downloads (dest_path of src/download.rs): where a download lands.
--   - Announced (accept_announced_downloads of src/remote.rs): what a hub keeps of the downloads
--     that a node announces; it asks Downloads for the place of each.
--   - Protocol (negotiate_version of src/remote.rs): the protocol version that two ends agree on.
--   - Ledger (src/catalog/ledger.rs, the row types of src/catalog/wire.rs): the file of downloads
--     that all processes of a machine share. Ledger.Rows is the sweep and the pruning, Ledger.Pass
--     is `with_ledger`, Ledger.Claims the claims, the writes and the readers, and Ledger.Attempts
--     the reconciliation of a cancelled attempt.
--   - Cancel (src/catalog/cancel.rs): the registry of downloads that can be cancelled, and in
--     Cancel.Pull the race of a download with its cancel. What a cancelled failure does to the
--     ledger is `overwrite_last_failed_to_cancelled` in Ledger.Attempts.
--   - DownloadLock (src/catalog/download_lock.rs): the lock that makes a download the only one of
--     its key on a machine.
--   - LogBus (src/log_bus.rs): the bounded histories of log lines and the snapshots of them.
--   - Config (src/config.rs): the configuration of an instance, with the hubs that a node has
--     paired with. Config.Hubs is its life over any operations.
--   - Served (src/node/served.rs): the ids under which the running instances of models are called.
--   - Fleet (src/node/fleet.rs, src/node/node_id.rs): the actor that holds a hub's view of its
--     nodes. `handle` is the step on one message; the messages of all tasks reach it in some
--     order, so that a list of messages is every interleaving. Fleet.Actions has what the messages
--     share, Fleet.Commit is the cache of inventories, Fleet.Resolve the way from a served id to a
--     worker, which uses Served. Fleet.Steps has an abstract machine of the connections that the
--     actor refines.
--   - Updates (src/node/self_update.rs, sanitize_version of src/remote.rs): the update of an
--     installation by itself. Updates.Eligibility is the policy, Updates.Boot the boot guard,
--     Updates.Apply the apply, the rollback and the pruning. An operation is a program over the
--     files of `bin` whose file operations may each fail, before or after they take effect, or be
--     the last thing that the process does; a read of the link, of a marker or of the list of
--     failed versions may fail too, which the code takes for a file that is not there. install.sh,
--     which shares no lock, may point `current` at a version at four points of an apply: before
--     the last look at `current`, before `current` is read for the marker, before the marker is
--     made, and before the flip. Operations exclude each other by the lock, so that a run is a
--     list of them; the hooks that run although the lock is broken rely on what the code says of
--     it, that no apply can be at work then. That a flush makes writes durable is not modelled.
--   - Keys (src/keys.rs): the stored API keys, their scopes and what they authorize.
--   - Auth (src/auth.rs): the allowlist of paired nodes, and the one-time tokens for pairing.
--
-- Conventions. Numbers are natural numbers. A time or a counter that the code adds to or subtracts
-- from saturates as in the code; the others are only compared, copied, or halved. The counters of
-- Fleet wrap around. Identities that the code takes from an atomic counter are fresh numbers. The
-- clock, random bytes, SHA-256, the answers of the operating system about processes and locks, and
-- the outcome of each file operation are arguments. A hash map is an association list or a list
-- without repeated keys, and its order is never observed. What the code does under one mutex or
-- one file lock is one step. In the ledger, the clock is read once in a pass, where the code reads
-- it at each stamp, and the state of a key's lock has one answer during a pass. `std::path` is
-- modelled as Unix has it, as far as the code uses it.
--
-- Bounds. Recursion is structural. The attempts to take the ledger's file lock and a download's
-- lock have the code's own counts of 20 and 5 tries. The loop that reads the lines of a stream
-- runs on fuel: each turn takes a line, so that one more turn than there are lines is enough,
-- which its theorem has as a hypothesis. The search for a free id in Served runs on one turn more
-- than there are ids taken, and the printing of a number on one more than the number. The epochs,
-- the generations and the ids of Fleet wrap around at 2^64 and 2^32, and its theorems are about
-- fewer messages than that.
--
-- Not modelled: the JSON text of the files, logging, wake-ups of waiting tasks, the transfers
-- themselves, the command lines, and the parts of the program that the modules above do not name
-- (the facade, the runtime of a node, the remote calls of a hub and its views, the HTTP surface,
-- the fetching of updates, tuning).
pub mod Base
pub mod DeltaQueue
pub mod Demux
pub mod Supervisor
pub mod LoadLadder
pub mod Downloads
pub mod Announced
pub mod Protocol
pub mod Ledger
pub mod Keys
pub mod Auth
pub mod Rpc
pub mod Cancel
pub mod DownloadLock
pub mod LogBus
pub mod Config
pub mod Updates
pub mod Served
pub mod Fleet
