-- ===== src/Lib.antt =====
-- KohakuHub, a self-hosted hub for models and datasets (src/kohakuhub, Python): its core logic.
--
-- The program is a set of HTTP handlers over a relational database, a versioned object store
-- (LakeFS over S3) and, for repositories that are not stored here, a chain of other hubs. The
-- handlers check the caller's permissions and the namespace's quota, change rows of the tables, and
-- keep large files (LFS) in S3 under their hash, where old versions are collected.
--
-- - Db: the tables of src/kohakuhub/db.py as lists of rows. Db/Queries has the row operations of
--   src/kohakuhub/db_operations.py, Db/Keys four of the unique keys (user names, memberships, ids of users and repositories) as an invariant and what the queries
--   for a membership find after each write, Db/Saves what a query finds after a row is saved.
-- - Config, Names, Http: the settings (src/kohakuhub/config.py), normalize_name
--   (src/kohakuhub/utils/names.py), and what a handler raises. Names/Lake has the names of the
--   repositories in LakeFS (src/kohakuhub/utils/lakefs.py), its children the hash in them and their
--   form.
-- - Auth/Permissions: src/kohakuhub/auth/permissions.py; Access says whom the checks let through in
--   terms of the tables, Hierarchy how the permissions are ordered.
-- - Org: the endpoints of src/kohakuhub/api/org/router.py; Members has their effect on the
--   memberships, Roles the roles that they hand out.
-- - Quota: src/kohakuhub/api/quota/util.py; Enforce (check_quota, increment_storage), Settings
--   (set_quota), Repo (set_repo_quota), and Calculate (the recomputation from a LakeFS
--   listing, for a repository and a namespace).
-- - Lfs: which files go to LFS (Rules), and src/kohakuhub/api/repo/utils/gc.py (Gc).
-- - Invitations: src/kohakuhub/api/invitation/router.py; Available (which can be used), Accepting and
--   Joining (the effect of a use), Usage (how many uses), Deleting.
-- - Commit: src/kohakuhub/api/commit/routers/operations.py. Files has the writes to the file table,
--   Process the kinds of file operation, Run the endpoint; View, Keys and Content say what the writes
--   do to the content at each path and to the table's indexes, Effects and Writes what each operation
--   does to the table, Staging and Stages what it stages in LakeFS, Unchanged what follows where none
--   reports a change; Inversion and Tail are about the parts of a handler and the end of a commit, Runs, Requests and
--   Refines put the operations together. It uses the permissions, the LFS rules, the collection and the quotas.
-- - Repos: src/kohakuhub/api/repo/routers/crud.py. The creation of a repository, with RepoLake for the
--   calls of LakeFS and S3; Orphans has what the cleanup before a second attempt keeps, Creating the
--   effect of a creation, Moving the checks of a move and its writes to the tables, its child what they do to names. It uses the
--   permissions, the names, the fallback cache and the quotas.
-- - Git: src/kohakuhub/api/git/utils/server.py. PktLine has the framing, its children the digits of a
--   length and what is read of a written stream; SideBand the answer that carries a pack.
-- - Likes: src/kohakuhub/api/likes.py; Counting and Effect keep the number of likes in a repository's
--   row, Race has two requests interleaved.
-- - Fallback: src/kohakuhub/api/fallback/cache.py; Keys has the texts under which bindings are stored,
--   Cache the operations, Evict and Generations what invalidations do to entries and to late writes.
--   Chain is the walk over the sources of core.py and the answers of utils.py; First says which
--   source serves, Aggregate and Missing what a client is told when none does.
-- - Viewer: the rate limiter of src/kohakuhub/datasetviewer/rate_limit.py and the preview endpoint of
--   src/kohakuhub/datasetviewer/router.py; Limits says what passes, Slots what counts as running.
-- - Fixtures and the Tests modules: concrete tables, runs of the code, and the theorems applied.
--
-- A handler is a function from the tables to the new tables with its answer, or to what it raises;
-- a database transaction that raises is undone, so that no state comes with an error. A commit, which
-- is no transaction, has a state with its errors. Ids that the
-- database chooses, the time, the answers of LakeFS, S3 and other hubs, the fallback's TTLCache, the parsers of
-- the viewer, base64, SHA-1, numpy's base_repr, the SHA3-224 digest, str.lower, str of a number and the json functions are arguments. Byte counts that may
-- be negative in Python are integers, all others natural numbers. Percentages stay exact fractions.
-- The loops over the pages of a LakeFS listing take fuel: one unit for each page is enough. Those over
-- pkt-lines and chunks take one for each round and one for the last test.
--
-- Not modelled: a null role in the stored parameters of an invitation, missing keys in the operations of
-- a commit, the cancellation of a request, logging, the texts of caught exceptions in messages, the asynchronous scheduling of handlers, the network, and the parts of the
-- program that mostly call other services (storage clients, the Git and admin routers, the dataset
-- viewer's parsers, avatars, mail).
pub mod Prelude
pub mod Config
pub mod Names
pub mod Http
pub mod Db
pub mod Fixtures
pub mod Auth
pub mod Commit
pub mod Fallback
pub mod Git
pub mod Invitations
pub mod Lfs
pub mod Likes
pub mod Org
pub mod Quota
pub mod Repos
pub mod Viewer
