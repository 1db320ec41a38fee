-- ===== src/Lib.antt =====
-- RateX: a rate limiter with a Go server (cmd/server, internal) and a dashboard in React
-- (frontend).
--
-- The dashboard keeps its state in one component (frontend/src/App.jsx), loads it with seven
-- calls of the HTTP API (frontend/src/api.js), again every five seconds, and changes policies,
-- keys and route policies by further calls. The server finds a handler for each call, tests the
-- administration token, validates what it stores, and answers from its tables. Requests to the
-- protected routes go through a limiter, of which there are three algorithms over Redis. This
-- library follows these parts.
--
-- The modules:
-- - Base, Base/*: shared names, the Boolean tests on natural numbers, lists, results of calls
--   that may throw. Text: the string functions of JavaScript that the dashboard uses, and
--   `show`, the text of a number. Text/Numbers: `strconv.Atoi` of Go.
--   Text/Trim: texts that trimming leaves as they are.
-- - Model: the records of internal/model and of the dashboard's forms.
-- - Api, Api/Calls, Api/Demo: `request`, `readError`, the exported calls as data with their
--   paths and options, and `sendDemoRequest` of frontend/src/api.js.
-- - App: the state of frontend/src/App.jsx and what the closures of a render capture. App/Load:
--   `safeLoad` and `load`. App/Handlers: what each event of the user does at once. App/Loop: the
--   event loop, with the promises that wait, the timer, and answers in any order.
-- - Chart: frontend/src/utils/chartData.js.
-- - Panels/*: the search, forms and edited rows of PolicyPanel.jsx and RoutePolicyPanel.jsx, the
--   result tabs of RequestTester.jsx, the keys and the clipboard (KeyPanel.jsx,
--   frontend/src/utils/clipboard.js), and the frame (Sidebar, Topbar, ConfirmDialog,
--   EventsPanel, all under frontend/src/components).
-- - Pages/*: the markup of frontend/src/pages, of the panels and of the frame, as texts, elements,
--   buttons and fields, with what a click or a change does. Pages/Dashboard: what App.jsx renders,
--   and what it is handed by each click.
-- - Limiter/Token, Limiter/Fixed, Limiter/Sliding, Limiter/Memory: `Allow` of internal/limiter
--   and the scripts of internal/redis/scripts.go.
--   Limiter/Replies: `parseScriptResult`, and `Allow` around a call of EVAL that may fail.
-- - Server/Auth, Server/Router, Server/Policies, Server/Events: internal/middleware/auth.go, the
--   table of routes of cmd/server/main.go, the validations of internal/service and the choice of
--   a limiter in internal/middleware/rate_limit.go, and the queries of internal/repository for
--   the log of requests. Server/Factory: the cache of limiters of `FromPolicy`. Server/Gate: the
--   rate limit middleware itself, with who a request comes from, its counters and its events,
--   over any limiter, and Server/Gate/Burst with the token bucket. Server/Limits: the middleware
--   with the limiters of the policies, over stores for each key and a Redis that may fail;
--   Server/Limits/Interleaved: the requests of one client among those of others;
--   Server/Limits/Overlap: two calls of `FromPolicy` at once. Server/System: the
--   tables and the middleware together, as a step relation over statements and requests.
-- - Server/Store: the tables and the statements of internal/repository that change them;
--   Server/Store/Lookup: the queries that join policies; Server/Store/Runs: statements one after
--   the other. Server/Accounts: the creation of keys in internal/service/api_key_service.go.
--   Server/Handlers: the handlers of internal/handler that the dashboard calls. Server/Monitor: its
--   other handlers, and the sums of the overview. Server/Cors: the configuration of CORS in
--   cmd/server/main.go. Server/Config: internal/config/config.go.
-- - Contract: the calls of the dashboard against the routes and the token test of the server.
--   Contract/Service: a call all the way, from the options that the client passes to the value
--   or the error that its promise settles with. Contract/Cross: the calls against CORS.
--   Contract/Limited: the demo request through the rate limit middleware.
-- - Tests/*: runs at concrete inputs.
--
-- How the code is read. A handler that waits is split where it waits: `dispatch` is what happens
-- before, `resume` what happens after, with the closure of the render that started it, as React
-- keeps it. Setters run in the order of the source, and a render is the state after a step. The
-- seven answers of a load arrive together. Numbers are natural numbers: negative limits are read
-- as 0 where the code treats all that is not positive alike. Tokens are cut into as many parts
-- as the window has milliseconds, so that the refill is exact, where the script and the bucket in
-- memory compute in doubles: an amount may differ from theirs in the last digits. No theorem says
-- that a client is let through at the very second that it was told, or that the two buckets decide
-- alike, since both can fail by such a digit. The bucket in memory is for windows that are not 0: at
-- 0 its amount is NaN. The factor 0.18 of the chart is exact. Case is changed for the ASCII letters
-- only.
-- `show n` has fuel for n + 1 digits, more than a number n has; nothing else needs fuel.
--
-- Arguments, not definitions: `fetch` and `JSON.parse`, the clocks, the text of a time, the
-- clipboard, the router of the web framework (it finds the route that serves a request, where
-- one alone does), the decoding of bodies, SHA-256 and the random bytes, the identifiers, moments
-- and failures of the database, and Redis. How a reply becomes a response is a relation: same
-- status, and a body that the client parses as the value that was sent. Redis is an interface of
-- the commands that are used, with what the code relies on: INCR adds one, EXPIRE changes no
-- count, the sorted set keeps its scores in order. The keys that are in use do not expire while
-- the theorems on a window look at them, except for the token bucket, where expiry is a case of
-- its own.
--
-- Not modelled: icons and attributes without text, the drawing of charts, how the metrics library
-- gathers and exports, migrations (read for what the tables demand of rows), the start and the end of
-- the process, and deployment.
pub mod Base
pub mod Text
pub mod Model
pub mod Api
pub mod Server
pub mod Contract
pub mod App
pub mod Chart
pub mod Panels
pub mod Pages
pub mod Limiter
pub mod Tests
