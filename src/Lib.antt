-- ===== src/Lib.antt =====
-- Soft Serve is a self-hosted git server. Its backend (pkg/backend) decides who may do what with a
-- repository, on top of stores (pkg/store/database) that run SQL statements in transactions (pkg/db);
-- clients reach it over SSH, HTTP and the git protocol. This library models the backend's access
-- decision and what it rests on: names and paths, the tables with their constraints, the stores and
-- the backend's operations on users, keys, tokens, collaborators and settings; and, in front of it,
-- the gate that every HTTP request for git or Git LFS passes (pkg/web), and the commands of git over
-- SSH, with those that manage repositories and users (pkg/ssh/cmd). The management server (pkg/grpc)
-- calls the backend without a check.
--
-- The parts and their files:
--   Base                      shared names; native numbers, lists, texts as lists of code points
--   Access, Access/Codec      pkg/access/access.go: AccessLevel, a Go int, is an integer (Base/Int)
--   Webhook, Webhook/*        pkg/webhook: the validator of target URLs, and the events
--   Env                       what comes from outside the repository, see below
--   Paths, Paths/*            path.Clean on rooted paths, and filepath.Join below a directory
--   Names, Names/*            pkg/utils/utils.go, and repoPath of pkg/backend/repo.go
--   Store/Schema              pkg/db/models and the tables of pkg/db/migrate, 0001 and 0002: a
--                             record per row, a list per table, constraints and cascades
--   Store/Exec                pkg/db: a handler takes the database and returns a result or an error,
--                             with the database; TransactionContext restores it on an error
--   Store/Users, Repos, Collabs, Tokens, Settings, Lfs, Webhooks
--                             pkg/store/database: one function per method, named after it
--   Store/Rows, Renames, Consistent, Requests
--                             the invariant of the tables, and every write as data
--   Backend/Users, Access     pkg/backend/user.go
--   Backend/Repos, Collabs, Tokens, Settings, Webhooks
--                             repo.go, collab.go, access_token.go, settings.go and webhooks.go of
--                             pkg/backend
--   System, System/*          the whole state of a server: tables, files and the cache of repositories;
--                             the calls of the package os, and the interface of the LRU cache
--   Storage, GitHooks         pkg/storage/local.go and pkg/hooks/gen.go
--   Backend/Lifecycle, Lifecycle/*
--                             pkg/backend/repo.go and cache.go with files and the cache
--   Web/Auth, Web/Decimal     pkg/web/auth.go: the user of an HTTP request
--   Web/Gate, Web/Gate/*      pkg/web/git.go: withParams and withAccess, before every handler
--   Web/Locks, Web/Objects    pkg/web/git_lfs.go: the handlers of Git LFS
--   Lfs, Lfs/Printed          pkg/lfs/pointer.go: pointer files
--   Ssh/Git, Ssh/Git/*        gitRunE of pkg/ssh/cmd/git.go, and EnsureWithin of pkg/git/git.go
--   Ssh/Session, Ssh/Commands, Commands/*
--                             pkg/ssh/cmd: the access checks, and the commands as data with one
--                             function each, named after its file or its variable
--   Backend/Hosted, Hosted/*  the access levels of user.go and the changes of collab.go on the whole
--                             state, where the lookup of a repository fills the cache
--   Grpc, Grpc/*              pkg/grpc/server.go: one function per method
--   Task, Task/*              pkg/task/manager.go: the task manager, and Run step by step
--   Web/Reads                 the lookups of a request, and the database
--   Tests, Tests/*            the theorems at concrete inputs
--
-- A statement of SQL is the list operation that it describes: WHERE selects rows, a UNIQUE, NOT NULL
-- or FOREIGN KEY constraint is a test before the change, and ON DELETE CASCADE removes rows of the
-- other tables. A table lists its rows in the order of their ids.
--
-- Parameters. Env holds the escape stripper, the tables of Unicode above ASCII, the encoding of SSH
-- keys, the token hash and sqlx.In. Net holds the parsing of URLs and addresses, and the name
-- service. Host holds what an operation finds outside the database when it starts: the repository
-- cache, the paths that exist and the data directory; the gate and the commands of git over SSH use
-- it, and leave out that their lookups fill the cache. Hooks holds the outcome of building and
-- sending webhook events. Crypto holds bcrypt's comparison and the checks of web tokens. GitHost
-- holds what a command over SSH gets from git, and the creation and deletion of repositories.
-- Machine holds the data directory, the failures of the operating system, those of os.Stat in the
-- storage among them, `git init` and the outcome of webhook events; Lru holds the operations of the
-- LRU cache, and LruLaws what its documentation says. Server holds the administrators' keys, the
-- comparison of SSH keys, the time, the parsing of durations and what a command over SSH gets
-- besides. Comparing SSH keys, reading the time, hashing a password and, for the gate, creating a
-- repository are arguments.
--
-- Every function is structurally recursive; only the printing of decimal numbers takes fuel, one
-- more than the number, where each digit divides the number by ten, and a bound on the steps of Run
-- in Task, which ends within eleven if the channel of its answers takes two sends. A send waits while
-- the channel takes none; how many it takes, and what the function of a task returns, and when, are
-- arguments of each step. Ids, sizes and times are natural numbers, without the bounds of int64.
-- Texts are valid UTF-8.
--
-- Not modelled: the columns created_at and updated_at, failures of BEGIN, COMMIT and ROLLBACK,
-- logging, the delivery of webhooks, the import of repositories, which clones in a goroutine,
-- UpdatedAt and DeleteUser of the backend, failures of os.Stat other than a missing path except in
-- Exists of the storage, the handlers behind the gate that run git, JSON and the texts of messages,
-- the commands and methods over SSH and gRPC that read or change git, the rest of the SSH server, the git daemon, and the
-- user interface.
pub mod Base
pub mod Access
pub mod Env
pub mod Paths
pub mod Names
pub mod Webhook
pub mod Store
pub mod System
pub mod Storage
pub mod GitHooks
pub mod Backend
pub mod Web
pub mod Ssh
pub mod Lfs
pub mod Task
pub mod Grpc
mod Tests
