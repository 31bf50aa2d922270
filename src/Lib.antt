-- ===== src/Lib.antt =====
-- niks3, a binary cache for Nix on S3 with garbage collection: the server's database protocol, its
-- access checks, reads and upstream caches, the queue and worker of the post-build hook, and parts
-- of the client.
--
-- The server keeps which objects the cache has in a database and the objects in a bucket. A client
-- declares a push with all objects under its roots, is told which of them to upload, uploads them
-- to the bucket, and completes the push, which folds the objects into the table and publishes the
-- roots. The garbage collector removes abandoned pushes and old closures, marks the objects that
-- nothing needs, and after a grace period deletes them from the bucket and the table. Pushes and
-- collections run at the same time. Every request passes the access checks first. Reads can go
-- through the server, which fills a path that it misses from upstream caches for readers it knows,
-- once it has checked the upstream's signature and the archive. On a build machine the hook's daemon
-- queues store paths on disk and pushes them in batches.
--
--   Common           shared names, tests, lists, equality, and tables with a primary key
--   Server.Db        the tables (server/pg/models.go, server/pg/migrations)
--   Server.Reach     the recursive query over references (server/pg/query.sql: MarkStaleObjects)
--   Server.Push      createPendingClosureInner, objectsToUpload (server/pending_closure.go),
--                    commit_pending_closure and commit_push (server/pg/functions),
--                    RegisterCompletedObject (server/pg/query.sql, called in server/uploads.go)
--   Server.Gc        cleanupPendingClosures (server/pending_cleanup.go), deleteClosuresBefore
--                    (server/closure_model.go), MarkStaleObjects and sweepBatch
--                    (server/objects_model.go), with their statements
--   Server.GcTask    the task around a collection (server/gc_tasks.go, server/closure.go)
--   Server.System    pushes and collections as interleaved steps, as in spec/pushes.qnt
--   Auth.Glob        GlobMatch (server/oidc/claims.go) and what a pattern means
--   Auth.Claims      rules and claims (server/oidc/claims.go, server/oidc/config.go)
--   Auth.Access      authenticate, RequireScope and mayWritePin (server/auth.go), client
--                    certificates (server/mtls.go), ValidateToken (server/oidc/validator.go)
--   Hook.Queue       the queue in SQLite (hook/queue.go)
--   Hook.Worker      step, upload, settle, drain and nextBackoff (hook/worker.go)
--   Server.Keys      IsValidUploadKey (server/upload_key.go), IsValidCachePath (server/proxy.go)
--   Server.Multipart part URLs and their numbers (server/pending_multipart.go, server/uploads.go)
--   Server.Uploads   the handlers that end an upload (server/uploads.go)
--   Server.Requests  CreatePushHandler (server/pushes.go), validateObjects (server/uploads.go),
--                    createPendingClosure (server/pending_closure.go)
--   Server.Pins      CreatePinHandler and DeletePinHandler (server/pins.go)
--   Server.Sign      SignNarinfosHandler (server/uploads.go)
--   Server.Signing   fingerprints, keys, signing and checking (server/signing)
--   Server.NixBase32 EncodeNixBase32 (api/nixbase32.go)
--   Server.Upstream  the narinfos of upstream caches, their checks, the memory of misses and the
--                    fill (server/upstream.go)
--   Server.Proxy     ReadProxyHandler with ranges, headers and decoding (server/proxy.go)
--   Client.Nar       the walk and the writer of archives (client/nar.go, client/nar_prefetch.go),
--                    with the format itself and a reader for it in Client.Nar.Format
--   Client.Multipart uploadMultipart and partSizeForNAR (client/multipart.go)
--   Client           upload and uploadRequest of streamed pushes (client/streampush.go), and
--                    shellSplit (client/shellsplit.go)
--
-- A definition has the name of the function or statement that it models. A table is a list of rows
-- with distinct keys, and NULL is `none`. A statement, or a transaction whose row locks exclude the
-- others, is one function from tables to tables; a failed transaction leaves the tables alone. S3,
-- the verification of tokens by go-oidc, pushes as the worker sees them, the clock and the parsing
-- of durations are parameters.
--
-- Loops: `closure_reach` runs as many rounds as there are rows, after which a round changes
-- nothing; `remove` has a round for each path; `drain` and `glob_match` have a bound on their
-- rounds and answer `none` if it were not enough. That of `glob_match` is always enough; that of
-- `drain` is enough if a push that succeeds reports some path that it was given, without which the
-- worker's loop need not end either. `upload_parts` has one more round than the stream has bytes,
-- which is enough for parts of a byte or more. The reader of archives has a round for each byte,
-- then for each word. A decimal number is printed with at most 20 digits, which is as many as 64
-- bits need.
--
-- An archive is written to a sink that takes every byte, and a prefetched file is read when the
-- writer comes to it: the queue holds the small files in the order in which the enqueuer gives
-- them. S3, behind its rate limiter, is a record of requests that change its state; the statements
-- of the handlers that create and end an upload, and of the removal of a pin, succeed.
--
-- A text in Server.Keys, Server.Signing, Server.Upstream and Server.Proxy is the list of its bytes.
-- HTTP, URLs, compression, SHA-256, base64 and Ed25519 are records of functions. A fill runs alone
-- and is not cut off by its time budget.
--
-- What the steps of Server.System take for granted: the references of an object are determined by
-- its key, a client declares all objects under its roots and the roots themselves, and completes a
-- push after it has uploaded what it was told to. A lookup and a commit wait for rows that the
-- sweep has locked. MarkStaleObjects is one step, as is the check of the bucket with the
-- registration of a completed upload. S3 deletes an object only while the sweep asks for it.
--
-- Not modelled: the handlers of the old API, the decoding of requests, the list of pins, external
-- signers, deadlines of the read proxy, the flag of an upstream, the build farm leader, metrics and
-- set-up of the server; the rest of the client; the hook's socket; command lines. They are I/O or
-- left for later.
pub mod Common
pub mod Server
pub mod Auth
pub mod Hook
pub mod Client
