-- ===== src/Lib.antt =====
-- A development beside the Go service: the declarative HTTP framework of internal/httpx, the
-- rate-limited cache of internal/db/cache, the users with their passwords, tokens and sessions, and
-- the packages of pkg that decide who a caller is and what a permission looks like.
--
-- How the program is put together. A module declares a tree of groups with endpoints, guards and
-- infrastructure routes (internal/httpx/declaration.go). Build walks the tree once
-- (internal/httpx/compile.go), resolves paths and guard chains, collects every violation, and
-- leaves a catalog of operations, from which the document is made, and a plan, from which the
-- router is made. At run time a request passes the guards of the groups, then those of its
-- operation (internal/httpx/guard.go), then the handler; every failure is written by one path
-- (internal/httpx/problem.go), within what the guard or the handler declares. The limiter
-- (internal/db/cache/ratelimit.go) counts attempts in the cache table and refuses with a problem of
-- that vocabulary. The address that it counts by comes from pkg/clientip. A reply of a handler is
-- committed by internal/httpx/response.go. The authentication module (internal/api/auth) is a
-- client of all this: it keeps users in a table, their passwords as argon2id hashes (pkg/argon2id),
-- and issues pairs of tokens, whose guards (internal/jwt) put the claims into the context of a request.
--
-- The modules:
--   Base          names passed on; tests, lists, Go's strings (lists of bytes) and maps
--                 (association lists) in its children.
--   Acl           pkg/acl/slug.go, Slug.Validate; WellFormed says which slugs it accepts.
--   Credential    internal/httpx/guard.go, RequirementSet with And, AnyOf, Requires and
--                 validateRequirementSet; Meaning reads a requirement as a test on the credentials
--                 of a caller; Validation is about accepted and deduplicated requirements.
--   Problem       internal/httpx/problem.go, kinds and problems. Errors is the tree of wrapped
--                 errors that errors.As and errors.Is search, with the results of functions;
--                 Classify is errorToProblemDetails (its Sealed is about statuses); Dispatch is
--                 problemPlan, dispatchResolvedError and writeProblemDetails. The children of
--                 Dispatch say that responses are errors (Sealed), that they are declared
--                 (Declared), and what wrapping and limits do (Retry).
--   Guard         internal/httpx/guard.go, NewGuard and guardMiddleware, and wrapRouteGuards of
--                 declaration.go; Construction and Chain hold the theorems.
--   DbError       internal/db/error.go, WrapDBError and its tests; Meaning holds the theorems.
--   Route         internal/httpx/compile.go and openapi.go, patterns, normal forms, mounts, ids;
--                 Mount compares mounts and routes with what a router matches by them, Shape
--                 compares normal forms, Placeholders is crossCheckPlaceholders.
--   Success       internal/httpx/declaration.go, validateSuccessMode and validatePayloadType over
--                 the shapes of response types; Coherent says which modes are accepted.
--   Declaration   internal/httpx/declaration.go, the tree as data (a group refers to its children
--                 by their numbers in a store, so that a group can be mounted twice or in a
--                 cycle), operationModel, and `prepare`, the closure of Register and RegisterRaw.
--   Compile       internal/httpx/compile.go, compiler.node and what it calls. Topology is
--                 validateChildTopology, Checks and Operation are endpoint, infrastructure and
--                 claimRoute. Claiming, Kept and Infra say what one step does, Walk lifts what the
--                 steps keep to the whole pass, and the theorems stand in Unique, in Documented
--                 (by Serving), in Reached (by Complete) and in Fuel.
--   Cache         internal/db/cache/cache.go with the statements of internal/db/sqlc/cache.sql.go;
--                 Limiter is ratelimit.go; Counting and Budget hold the theorems.
--   ClientIp      pkg/clientip/clientip.go; Origin holds the theorems.
--   Strconv, Base64   decimal numbers and base64 of Go's library, as far as the packages below
--                 use them, with their round trips.
--   Token         internal/jwt: tokens.go and the single initialization of service.go; Guards is
--                 the bearer guards of guards.go. Pair and Issue are about the tokens, Bearer and
--                 Session about the guards, Once about the initialization; Written is a small
--                 token library that keeps what is asked of one.
--   Password      pkg/argon2id/argon2id.go, the text form of a hash; Scan and RoundTrip read it
--                 back; Toy is a small key derivation.
--   Response      internal/httpx/response.go, replies, write plans and cookies; Effects is
--                 `commit`, whose result is the list of effects on the response writer. Commit (by
--                 Written) and Cookies are about it. Page is FinishCursorPage: Reversal is its
--                 loop, Trim its result, and Walk (by Follow) is about a client that follows the
--                 cursors.
--   Binding       internal/httpx/request.go and raw.go: the readers and setters of parameters;
--                 Plan and Plan/Compile are compileRequest over the fields of a struct, Wire is
--                 the bytes of a body and their media type, Body what is made of them, Bind is
--                 `bind`. Plan/Sound (by Plan/Promises) and Settable say what a compiled plan
--                 keeps, Plan/Tagged that it binds each tag, Own and Filled where the parameters of
--                 a bound request come from, Body/Verdict (by
--                 Body/Refusals) what a body comes to, and Body/Chunks that leadingByteReader does
--                 not depend on the reads. Boundary is validateCrossFieldBoundary: Written says
--                 how a validate tag is written from rules, Read (by Parts and Rules) that
--                 crossFieldTargets reads them, and Sides which requests pass. Toy is a small
--                 decoder with some structs.
--   Raw           internal/httpx/declaration.go, the documents of raw operations: RegisterRaw's
--                 defaults and validateRawDoc; Checks and Complete say which documents pass.
--   Document      internal/httpx/openapi.go, the error responses and the security derived for an
--                 operation. Covers and Adapter compare the responses with the failures of the
--                 adapter (Binding/Failure), Security is about the credentials.
--   Auth          internal/api/auth with the statements of internal/db/sqlc/users.sql.go (Users;
--                 Integrity is about the table). Outcome and Denial are about what fails (by
--                 Shown), Session (by Registered) about the way from the registration to the
--                 user's details.
-- Each component has a module Tests with runs of it and its theorems at concrete inputs.
--
-- Conventions. Functions are total and executable; errors are values; the compiler's state is
-- passed on explicitly. A list that Go appends to is a list; a nil pointer, interface or function
-- is `none`. Violations and errors are constructors with the values that Go formats into a
-- text, in the order in which Build finds them, without the final sort. Cloning is the identity.
-- Bytes are numbers, and the functions on letters are those of ASCII. Statuses, limits and
-- durations are not negative; durations and times are nanoseconds.
--
-- Fuel. `Compile.node` recurses on fuel that starts one above the number of groups: a group that
-- is active is not entered again, so that no way down is longer. Where it runs out it would
-- report a violation of its own. `collect_inline` has the same bound by the set of groups on its
-- way. The digits of a number n take n + 1 steps at most, the loop that reverses a page the
-- number of its rows and one, and a client that follows cursors as many pages as the table has
-- rows, and one.
--
-- Parameters, for code that is not in the repository: JSON encoding (whether it succeeds), the
-- verdict of chi on a pattern and of net/http on a cookie name, SHA-256 in hex, the parsers and
-- the membership test of net/netip; the functions of the JWT library, argon2's key derivation,
-- the source of random bytes, json.Marshal of an envelope, http.Cookie.Valid, and PostgreSQL's
-- verdict on an insert with the fault of a connection; the JSON decoder, the struct validator,
-- %q, and the parsers of floats, times and text types that a request's values go through. What a
-- typed operation's reflected types and success mode are checked for is an argument of its
-- contract.
--
-- Not modelled: logging, reflection itself (the fields, tags and types of request and response
-- structs are data), the validators that are compiled from tags and enums, the OpenAPI document
-- apart from its paths, ids, error responses and security, the materialization on chi, the pools
-- and migrations of the database, the job queue, and the wiring of the server.
pub mod Base
pub mod Strconv
pub mod Base64
pub mod Token
pub mod Password
pub mod Response
pub mod Auth
pub mod Binding
pub mod Raw
pub mod Document
pub mod Acl
pub mod Credential
pub mod Problem
pub mod DbError
pub mod Guard
pub mod Route
pub mod Success
pub mod Declaration
pub mod Compile
pub mod Cache
pub mod ClientIp
