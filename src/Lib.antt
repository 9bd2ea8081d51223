-- ===== src/Lib.antt =====
-- The CodeAI runtime: models of the parts that keep state or decide, with what holds of them.
--
-- The parts, and the files of the repository that they are in:
--
-- CircuitBreaker models pkg/integration/circuitbreaker.go: the states closed, open and half-open,
-- `Allow`, `Execute`, `RecordSuccess`, `RecordFailure`, `Reset` and `transitionTo`. The clock's
-- readings are arguments, the int32 counters wrap at 2 ^ 32. CircuitBreaker/Registry is the
-- registry of named breakers, a store of breakers that pointers index. CircuitBreaker/Refinement
-- has an abstract breaker, a phase with one number; Invariant and Trip have the lemmas on counts,
-- and Races has two calls that overlap.
--
-- Rbac models internal/rbac. Rbac/Permission has permissions `resource:action` and the validation
-- of names (rbac.go, policy.go); Rbac/Policy the roles of a policy and the search for cyclic
-- inheritance (policy.go); Rbac/Storage the storage in memory and the cache in front of it
-- (storage.go), with Rbac/Storage/Races for two calls that overlap; and Rbac/Engine the checks of a
-- user's permissions and roles (rbac.go). The engine reads a storage and keeps a cache of the
-- permissions of roles. A policy tests the parents of a role for cycles, a storage does not.
--
-- Cache models internal/cache/memory.go: the map and the list of least recent use are two
-- structures that hold elements, with the memory in use beside them.
--
-- Saga models internal/workflow/compensation/saga.go: steps whose actions and compensations are
-- functions on a world that the caller chooses. Saga/Runs and Compensation/Passes have relations
-- that say how compensations run, apart from the loops of the code. Compensation models manager.go
-- beside it: the compensations of the activities of a Temporal workflow. Temporal's running of a
-- compensation is a parameter, the function that a step carries.
--
-- Query models the query language, internal/query. The lexer, tokens.go, works on bytes;
-- Query/Consumed says how the bytes of a token spell its value, and Query/Bodies has the bodies of
-- strings. Query/Ast has the trees (ast.go), with a float kept as its literal. Query/Parser models
-- parser.go and its errors, errors.go: Numbers, State (the cursor on the tokens), Values,
-- Conditions, Clauses, Filters and Statements have its functions; Parser/Print prints conditions,
-- for the round trips, and Parser/Total has the lemmas on fuel, function by function.
-- Query/Compiler models compiler.go: Sql has the statement as bytes and placeholders, with a small
-- monad for errors, Names the columns and the quoting, Conditions and Statements the rest. The
-- compiler takes the trees of the parser, and what fmt.Sprint shows of a float is a parameter.
-- Letters are folded in ASCII.
--
-- Pagination models internal/pagination: Request has types.go, Filter filter.go and Paginator
-- paginator.go. The filters and the paginator make the trees of Query, and Pagination/Compiles
-- takes the filters through the compiler. Runs of a query and of a count, the codec of cursors and
-- what fmt prints are the fields of a record, Calls, and the theorems on pages have hypotheses on a
-- run, on a table that does not change. Pagination/Pages has one page of rows in a fixed order; for
-- pages together, Pagination/Order says what ORDER BY promises, which without a clause or with ties
-- leaves the order open.
--
-- SymbolTable models internal/validator/symbol_table.go: nested scopes as a list of maps.
--
-- Shutdown models internal/shutdown: the manager (manager.go), its hooks (hook.go), the
-- configuration (config.go) and the run of one hook (timeout.go). Shutdown/Order has the sorting by
-- priority, Shutdown/Reports what a hook reports, and Shutdown/Groups the groups and what a
-- shutdown runs. The hooks of a group run at once, so the order in which they end is an argument.
--
-- Drainer models the drainer of internal/shutdown/drainer.go, and Health the registry of
-- internal/health/registry.go, whose checks may end in any order.
--
-- Base has the shared names, lists measured by native numbers, Boolean tests, and Base/Dict, a Go
-- map as an association list, whose order stands for an iteration order that Go leaves open.
--
-- Concurrency: a call is one step, and in a sequence of calls each ends before the next begins,
-- except where the following says otherwise. The source does not make each call atomic: Allow,
-- RecordSuccess and RecordFailure of the breaker read the state without a lock, GetRole, SaveRole
-- and DeleteRole of the cached storage let go of the lock between the backend and the cache,
-- Compensate of the compensation manager holds none while compensations run, and the engine of
-- internal/rbac takes none for a whole call. So nothing is said of calls that overlap, but for
-- these: CircuitBreaker/Races and Rbac/Storage/Races put another call between the parts of one; an
-- event of Drainer is one atomic action of a call, so that an `Add` is two; the function that
-- `Execute` of the breaker runs takes and returns the breaker, since other calls may come
-- meanwhile; checks of Health and hooks of a group of Shutdown may end in any order.
--
-- Fuel: `detect_cycle` and the resolution of roles visit each stored role at most once, so one more
-- than the number of stored roles is enough; `evict` deletes an entry in each round, so the number
-- of entries is enough; `tokenize` takes a byte in each round but the last, so one more than the
-- number of bytes is enough. The parser's loops take a token in each round, and its groups nest at
-- most ten deep, so twice the number of tokens and three is enough for a loop. `has_inherited_role`
-- follows the source, which keeps no set of visited names, so the fuel is an argument of
-- `check_role`.
--
-- Not modelled: the parser and the other validators of the DSL, the executor of queries, code
-- generation, OpenAPI, authentication, the database, events, the HTTP handlers and clients, the
-- scheduler, webhooks and the Temporal workflows. Of pagination: http.go. Of the shutdown: signals.
-- Of the cache: JSON, `GetOrSet`, the patterns of keys, and the counters. Of the packages that are
-- modelled: logging, the texts of errors, and the recording of metrics other than the breaker's
-- state.
pub mod Base
pub mod CircuitBreaker
pub mod Rbac
pub mod Cache
pub mod Saga
pub mod Compensation
pub mod Pagination
pub mod Query
pub mod Shutdown
pub mod SymbolTable
pub mod Drainer
pub mod Health
