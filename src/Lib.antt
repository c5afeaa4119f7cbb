-- ===== src/Lib.antt =====
-- Kopano kustomer: the daemon that loads license files, verifies them and tells local clients
-- which products they license.
--
-- The parts and how they interact. A license file is a JSON web token. The loader (licenses.go)
-- reads the files of a folder, finds a key for each in a key set or, offline, in a certificate
-- pool, verifies and validates it, and then sorts the licenses found and keeps the newest of each
-- uid. The fetcher (jwks.go) gets the key set over HTTP. The server (server/server.go) runs a
-- loop that fetches the key set and counts how long it is offline, and a loop that scans the
-- folder and tells the watchers of the claims when they have changed. The products endpoint
-- (server/handlers.go) aggregates the claims of all active licenses, product by product. A
-- reporter sends customers and products to a survey (server/collector.go). The commands of
-- cmd/kustomerd configure and start the server, or ask a running one to reload. The claims
-- generator (license/claims-gen.go) makes the claims of a new license from a form.
--
-- Which file models what:
--   License, License/Dynamic, License/Json: license/license.go, with `Product.UnmarshalJSON` and
--     `Product.MarshalJSON`, and what encoding/json writes and reads of a value; the values of Go's
--     `interface{}` with `==` and hashing.
--   Loader/Jose: what the loader uses of go-jose and crypto/x509, as a record of operations that
--     is a parameter of everything below.
--   Loader/Trim, Loader/File, Loader/Folder, Loader/ScanFolder: `scanFolderForLicenseClaims` of
--     licenses.go, from `bytes.TrimSpace` over one file and one folder to `ScanFolder`.
--   Loader/Sort, Loader/Dedupe: `sortAndDeduplicate` of licenses.go, with the calls of the hooks.
--   Products/Merge, Products/Entry, Products/Answer: `ClaimsKopanoProductsHandler` of
--     server/handlers.go from the inside out: two values, one license, all licenses and the handler;
--     `appendIfMissingS` of server/utils.go, the types of server/api-v1/models.go.
--   Jwks: `JWKSFetcher.Update` of jwks.go.
--   Server/State, Server/Refresh, Server/Reload: the fields of `Server`, the loop of `Serve` that
--     fetches the key set, and the function `f` of `Serve` that loads the licenses.
--   Server/Serve: the goroutines of `Serve` as one step function: the refresher of the key set, the
--     loader, the reporter and the signal loop, each with a program counter, and the mutex and the
--     channels that they share. Server/Serve/Invariant has what every move keeps.
--   Server/Refresh/Moves, Server/Reload/Moves: the moves of the refresher and of the loader against
--     the loop body and the function `f`.
--   Server/Serve/Watch: the loop of `MakeClaimsWatchHandler` of server/handlers.go beside the
--     goroutines of `Serve`.
--   Server/Reload/Backed, Server/Reload/Products: all calls of `f` from `NewServer` on, and what the
--     products endpoint answers after them.
--   Server/Listen: how `Serve` takes its listen path, system call by system call, for two processes.
--   Server/Lifecycle: how `Serve` ends: the signal loop, the listener, the shutdown, `errCh`
--     and the variable `err` that the reporter writes too.
--   Server/Email, Server/Collector: `isValidEmail` of server/utils.go, server/collector.go.
--   Server/New: `NewServer` of server/server.go on `Config` of server/config.go.
--   Server/Handlers: the other handlers of server/handlers.go, and `AddRoutes`.
--   License/Generate: `GenerateClaims` of license/claims-gen.go; License/Generate/Parse is what it
--     calls of strings and strconv.
--   Cmd/Environment, Cmd/Serve: `init` and `serve` of cmd/kustomerd/serve.go.
--   Cmd/Client: the commands of cmd/kustomerd/reload.go and cmd/kustomerd/healthcheck.go.
--   Server/ReloadRequest: `ReloadHandler` of server/handlers.go with server/connection.go.
--   Common: maps as association lists, code that may panic, tests and lists on native numbers.
--
-- How state and operations correspond. A method is a function from the state and its arguments to
-- the state after it; a panic is the value `panic` of `Run`, or `crash` of `Outcome` in
-- the claims generator. A Go map is an association list; the
-- order of the list is one order in which Go may iterate. A pointer that is compared carries its
-- address; a channel that is closed and replaced is a number that grows. Hook calls are collected
-- in a list.
--
-- Bounds and fuel. The update of the key set runs on fuel of one more than the allowed retries:
-- each attempt takes one, and the last allowed attempt ends the loop. Runs of the goroutines are
-- lists of moves, of any length. The sum of two int64 claims and the offline counter wrap around at
-- 64 bits. All other loops are recursion on lists.
--
-- What is not modelled: log lines except those on the offline counter; the JSON text of licenses
-- and responses; file, socket and HTTP input and output, which are arguments; floating-point
-- arithmetic, go-cmp, hashes, base64 and URLs, which are parameters. On the listen path, errors of
-- `stat` other than a missing file and errors of the lock are left out; the shutdown of net/http is
-- one move, which ends. In the model of the goroutines, what a fetch or a scan finds is part of the
-- move, and a section under the read lock is one move.
pub mod Cmd
pub mod Common
pub mod Jwks
pub mod License
pub mod Products
pub mod Server
pub mod Loader
