-- ===== src/Lib.antt =====
-- Auru PM core: the history store of music projects, modelled and proved.
--
-- The program. A project's history is a graph of commits over content-addressed blobs. The kernel
-- (crates/auru-pm-kernel) has the hashes, the commits with their canonical ids, and the readers of
-- the project formats, and the three-way
-- merge of their snapshots; crates/auru-pm-protocol has what client and provider say to each other;
-- crates/auru-pm-server is the provider behind HTTP, with one JSON state file and a folder of blobs;
-- crates/auru-pm has the local blob store, the provider on a folder and the synchronisation.
--
-- The files, and what they model:
--   Hash              crates/auru-pm-kernel/src/hash.rs: `Display` is `to_string`, `FromStr` is
--                     `from_str`
--   Commit            crates/auru-pm-kernel/src/commit.rs, `compute_commit_id` of canonical.rs and
--                     the entries of sample_manifest.rs
--   Protocol          crates/auru-pm-protocol/src/lib.rs: the retention rules
--   Json              the values of the JSON library, as the merge uses them
--   Merge             crates/auru-pm-kernel/src/merge.rs: `merge3` with the functions it calls, which
--                     recur on the local value; `Merge.Resolve` has `resolve_conflicts`, the other
--                     modules prove
--   FlStudio          crates/auru-pm-kernel/src/flstudio/events.rs: `Stream::decode` is `decode`,
--                     `Stream::encode` is `encode`, the `Reader` is a cursor record;
--                     `FlStudio.Tree` is flstudio/tree.rs, where `encode_event` is `event_element`
--   Cas               crates/auru-pm/src/cas.rs: the frames and the blob store
--   Filesystem        crates/auru-pm/src/filesystem.rs: the control files, the objects of
--                     commits, and in `Filesystem.Repository` the head, the history, the commits
--                     and the pruning, with `graph_walk` for the loop of `retention_graph`;
--                     `Filesystem.Provided` puts the calls together as a provider
--   Server            crates/auru-pm-server/src/main.rs: `Server.Store` has `Db` with its
--                     persistence, `Server.Handlers`, `Server.Commits` and `Server.History` a
--                     function for each handler, `Server.Requests` the router, `Server.Limiter` the
--                     rate limiter; the others prove
--   Provider          crates/auru-pm/src/provider.rs: the trait as a record of calls, and the
--                     contract that a client relies on
--   Sidecar           crates/auru-pm/src/sidecar.rs: the record and its file
--   Sync              crates/auru-pm/src/sync.rs: `Sync.State` the state and the tools, `Sync` the
--                     writes of a push, `Sync.Push` a push, `Sync.Mirrors` the mirrors,
--                     `Sync.Drain` the drain of the queue; the others prove
--   Prelude           lists, texts, maps, results and integers that the components share
--   Tests             runs at concrete inputs
--
-- State. The server's `World` is the live database, the state file and the blob files; a handler
-- takes it and gives the response and the next one. The mutex around the database makes a request
-- atomic, so a series of requests is a list. Each system call's answer is a field of the request's
-- `Io`, so that every failure can be chosen; a failed write may leave any part behind.
-- `SyncState` is the primary, the sidecar's file and the mirrors; other clients may move a provider
-- in any call, and each call may fail. The contract `IsProvider` covers the calls between two
-- prunings of a history; the folder provider keeps it.
--
-- Bounds and fuel. `decode_loop` has the length of the body for fuel, and each event takes at least
-- one byte. `write_varint` has ten groups, enough for 64 bits. The walks over a history have one
-- round more than the project has commits; the answer `endless` stands for a walk that needs more,
-- which is a loop in the code. The walks of
-- `Filesystem.Repository` have one round more than the commit store has files, and `graph_walk` one
-- for each retained commit and each file of the commit store: a round takes an id that is new, which
-- is retained or has a file. `path_segments` has the length of the path, and each round takes a
-- character.
--
-- Parameters. BLAKE3, the JCS encoder, the JSON reader, gzip and base64 are not part of the
-- repository, and stand as the arguments `External`, `Codec`, `parse_manifest` and `Base64`. `Tools`
-- holds what a push calls and is not modelled here, such as the formats of projects.
--
-- Not modelled: the authentication that gives a request its identity, TLS, the ownership migration
-- and the rest of the start-up, the clients, the language bindings, the desktop application, the
-- other project formats, and of crates/auru-pm the rest of the folder provider and of the
-- synchronisation. HTTP bodies are taken as decoded, and the listing of a directory during a
-- collection as one that succeeds.
pub mod Cas
pub mod Commit
pub mod Filesystem
pub mod FlStudio
pub mod Hash
pub mod Json
pub mod Merge
pub mod Prelude
pub mod Protocol
pub mod Provider
pub mod Server
pub mod Sidecar
pub mod Sync
pub mod Tests
