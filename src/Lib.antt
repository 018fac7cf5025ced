-- ===== src/Lib.antt =====
-- V2bX is a proxy node that reports its users' traffic to a panel. This library models
-- common/beuptransfer, the durable outbox between the node's counters and the panel, in which
-- traffic is to be booked once in whichever order requests, answers, crashes and restarts come,
-- the packages common/beupguard and limiter, which admit the flows and connections of the node's
-- users, and smaller packages around them.
--
-- The program's parts. A node collects samples (uid, subscription, upload, download) and hands
-- the complete cumulative inventory to `Outbox.Flush` (outbox.go), which turns it into a batch
-- of growths, writes the journal with the batch to disk, posts the batch and, behind the
-- panel's answer, writes the journal without it. A drain (drain.go) fences a row of the
-- adapter, takes its final counter and proves that the panel has booked it. Slots for drains
-- are reserved first (reservation.go). A counter session (counter_session.go) lets the counters
-- start at zero again on top of a committed base, and a seal ends it for good. The adapter of
-- an inbound (adapter_guard.go) fences an identity by a lease on a guard, which refuses its flows and
-- closes those that run. Apart from them, the limiter (limiter/limiter.go) keeps the users of the node with their limits, and answers each
-- new connection with a rejection or a bucket for its rate.
--
-- The files of this library and the code they are about:
--   Base, Base/*            booleans, lists, association lists and numbers of the models
--   Text, Text/*            text as lists of character codes: strconv's decimals, hexadecimal,
--                           the order of strings; `validHex` of common/beuptransfer/outbox.go
--   Transfer/Types          the records of common/beuptransfer/{outbox,drain,reservation,
--                           counter_session,legacy}.go and the errors as one data type
--   Transfer/Samples, /*    `samples` of outbox.go: order, bounds and duplicates
--   Transfer/Delta, /*      `delta` of outbox.go, and what an inventory adds up to
--   Transfer/Wire           `wire` and `hash` of outbox.go
--   Transfer/Env            what the package calls: the disk, the panel, the adapter, JSON,
--                           SHA-256, as parameters over a world W and a type T of JSON text
--   Transfer/Contract       what that code promises, as named hypotheses about W
--   Transfer/Rules          postconditions of actions
--   Transfer/Outbox, /*     `save`, `replay`, `replayPending` and `flush` of outbox.go
--   Transfer/Reservation    reservation.go
--   Transfer/Drain, /*      drain.go
--   Transfer/Rows           rows of the adapter
--   Transfer/Session, /*    counter_session.go, and the seal of counter_session.go and legacy.go
--   Transfer/Open, /*       `Open` and `validate` of outbox.go, `OpenLegacy` of legacy.go
--   Transfer/Legacy, /*     `FlushLegacy` and `LegacyPayload` of legacy.go
--   Transfer/Worker, /*     worker.go
--   Transfer/Adapter, /*    adapter_guard.go: the adapter of a drain, over a guard of its own
--   Guard, Guard/*          common/beupguard/{guard,authorization,registry}.go, common/beupidentity
--   Guard/Controller, /*    common/beupguard/controller.go: the journal of signed commands
--   Transfer/System         a node in a world: operations, crashes and restarts as steps
--   Limiter/Types           the records of limiter/limiter.go; a shared pointer is a number
--   Limiter/Speed           `determineSpeedLimit` of limiter/dynamic.go and the rate in bytes
--   Limiter/Check, /*       `CheckLimit` of limiter/limiter.go
--   Limiter/Users, /*       `AddLimiter`, `UpdateUser`, `UpdateDynamicSpeedLimit` of limiter/limiter.go
--                           and `AddDynamicSpeedLimit` of limiter/dynamic.go
--   Limiter/Online, /*      `GetOnlineDevice` of limiter/limiter.go
--   Observer, Observer/*    common/beupobserve/{observer,tcp_outcomes}.go: the windows of a minute
--   Panel, Panel/*          api/panel/traffic_epoch.go and legacy_traffic.go
--   Reload, Reload/*        `ValidateTransferReload` of conf/watch_candidate.go
--   Selector, Selector/*    core/selector.go
--   Counter, Counter/*      common/counter/traffic.go
--   Json5, Json5/*          common/json5/json5.go
--   Examples, Examples/*    a concrete world, tests and the applications of the theorems
--
-- How code becomes definitions. A method of `Outbox` is an `Action W A`, a function from the
-- state (the journal in memory and the world outside) to a result and the next state; a Go
-- error is a constructor of `Error`, and the writes made before an early return stay. A method of
-- `Limiter`, `Guard` or `GuardAdapter` is a function on its record; the readings of the clock that a
-- method makes are an argument, and a callback is a number. The mutex is the reason why one operation is one step:
-- a method
-- holds it from its start to its end, except in `GuardAdapter`, where `Track`, `Fence`, `Inspect` and
-- `Quiesce` release it on the way; `Track` is also modelled by its two halves. A crash inside an operation of `Transfer.System`
-- is a call that fails, with whatever it left outside, and the stop behind it.
-- Integers are `ℤ` over the natural numbers; where the code adds, subtracts or multiplies in int64,
-- the model wraps around (`add64`, `sub64`, `of_word`). The theorems on counters ask that the given
-- ones are int64 (`IsInt64`). Strings are lists of bytes.
--
-- Fuel. `decimal n` prints with fuel suc n, and `read-decimal` shows that this is enough. The loops of
-- common/json5 run on the length of the text and 1, and `prep_finishes` shows that this is enough.
-- Every other loop is structural on its list.
--
-- Not modelled: the encoding of JSON and SHA-256 themselves (parameters, with the laws the code
-- relies on), files and permissions (common/beuptransfer/store_unix.go), the HTTP clients,
-- runtime.go and registry.go of common/beuptransfer, the polling and control files of common/beupguard
-- (base64, Ed25519 and the store are parameters of its controller), the adapters'
-- kernels, the reports that common/beupobserve cuts from
-- a closed window, and the parts of the node outside these packages.
pub mod Base
pub mod Counter
pub mod Examples
pub mod Guard
pub mod Json5
pub mod Limiter
pub mod Observer
pub mod Panel
pub mod Reload
pub mod Selector
pub mod Text
pub mod Transfer
