-- ===== src/Lib.antt =====
-- GOATRouter, a local gateway that routes chat requests to model providers: the core of its router
-- (packages/router/src) with what that core reads of packages/providers/src, the dispatch of the
-- tool calls of a model (packages/capability/src) with its scopes (packages/identity/src) and its loop
-- (apps/server/src), and the handshakes of proxies (packages/proxy/src).
--
-- A chat names a model. `resolveCandidates` picks the routes of the registry that serve it, the
-- free-only filter drops those that may cost money, and a loop tries the candidates in order: each
-- attempt passes a circuit breaker, goes through the proxy that its route and provider give, and
-- waits at a semaphore for one of the permits of the process. Transient failures go on to the next
-- candidate; all others end the request. A recorder sees an event for each step. A streamed chat
-- differs in that it is committed to the attempt that opens. Tool calls in an answer are dispatched
-- to handlers of a registry, each of which asks for a scope that the caller must hold; the server's
-- tool loop puts their results into the conversation and asks the router again. A request to a
-- provider goes only to a host that the egress policy lets through, and through a proxy by a SOCKS5 or
-- HTTP handshake over a bounded reader.
--
-- Files and code:
--   Errors             packages/router/src/errors.ts: the codes, and `throw` as a result
--   Circuit            packages/router/src/circuit.ts: `CircuitBreaker` with `allow`, `onSuccess`,
--                      `onTransientFailure` and `state`; a call takes the breaker and returns it
--   Semaphore          packages/router/src/concurrency.ts: `createSemaphore` with `acquire`,
--                      `makeRelease`, `pump` and `onAbort`, and the limiter of the process
--   Model              packages/router/src/model.ts: model ids and patterns
--   Economics          packages/providers/src/economics.ts: `classifyModelEconomics`, `readPrice`,
--                      `isFreeEconomics`
--   Route              packages/router/src/repository.ts: `RouteRecord`
--   Selection          packages/router/src/selection.ts: `resolveCandidates`, `selectRoute`,
--                      `filterFreeCandidates`
--   Router             packages/router/src/router.ts: `chat`, from the candidates to its end
--   Router.Stream      packages/router/src/router.ts: `chatStream`, likewise
--   Tools              packages/router/src/tools.ts: `parseToolCalls`
--   Sse                packages/router/src/sse.ts: `encodeSseEvent`, `encodeSseDone` and
--                      `SseLineReader` with `push` and `done`
--   Value              the JavaScript values that the validators look into
--   Scopes             packages/identity/src/scopes.ts: `assertScopes`, `satisfies`
--   Capability         packages/capability/src/registry.ts: `registerCapability`,
--                      `lookupCapability`, `resetCapabilities`
--   Capability.Dispatch  packages/capability/src/dispatch.ts: `dispatchToolCalls`; a log records the
--                      calls of handlers
--   ToolLoop           apps/server/src/tool-loop.ts: `runToolLoop`
--   Address            packages/providers/src/egress.ts: `parseLooseIpv4`, `classifyIpv4`
--   Ipv6               packages/providers/src/egress.ts: `classifyIpv6`
--   Egress             packages/providers/src/egress.ts: `classify`, `assertEgressAllowed`,
--                      `assertResolvedAddressAllowed`, `assertRequestEgressAllowed`
--   Handshake          packages/proxy/src/handshake-reader.ts: `readExactly`, `release`
--   Socks5             packages/proxy/src/socks5.ts: `socks5Connect`, from its encoded target
--   HttpConnect        packages/proxy/src/http-connect.ts: `httpConnect`, from its authority
--   Common             shared lists, texts, tests and orders
-- The children of a file hold its proofs, named for what they prove; Tests modules hold runs and
-- the theorems at concrete values.
--
-- State: the breaker's map is a function from provider ids; the semaphore keeps its array of
-- waiters with the slots that are vacated, the abort listeners with the index that each captured,
-- and what became of the promise of each caller; a chat keeps a `Progress`. A string is the list of
-- its UTF-16 code units. Times, counts and priorities are natural numbers, which no code here
-- subtracts below 0.
--
-- Parameters: a chat runs against a `World`, the answers of the provider manager, the clock and the
-- network at each candidate, and what other requests do to the breaker during an attempt. A stream
-- runs against one too, in which an attempt opens a `Delivery`: the chunks that the consumer
-- receives and how the stream ends. A dispatch has `JSON.parse` and `JSON.stringify` as parameters,
-- and handlers as functions that give none where they throw; a classification has `Number`. The
-- reader of a stream has the `TextDecoder` and `JSON.parse`, the tool loop what the router gives at
-- each turn, the egress policy the resolver and `isIP`, and a proxy handshake the events that its
-- socket delivers up to the deadline. Nothing is assumed of these but where a theorem says so.
--
-- Bounds: most loops go through a list; the loop of `pump`, which would not end on an empty array,
-- gives none there. The tool loop counts down its four turns, of which the last returns or throws,
-- and the loop over the header of a tunnel the bytes that its bound leaves. A read of a socket goes
-- through its events, and a wait with none left is the timeout.
--
-- A handler is a function, so that one whose answer changes between calls is not represented, and
-- `release`, the last that a handshake does to its socket, is a view of what the handshake leaves.
--
-- Not modelled: latencies, time stamps, request ids, token counts and log lines of a chat, and its
-- parsing; the parser of the chunks of a stream, and the tear-down of its upstream; the transport;
-- the definitions, choices and results of tools; the encoding of the target of a proxy, and what
-- packages/proxy stores; URLs and HTTP requests of providers; the keys of packages/identity; the
-- other packages (storage, gateway, telemetry, security), and of the applications all but the tool
-- loop. Files, sockets, SQL, cryptography and components of the browser are platform code.
pub mod Common
pub mod Errors
pub mod Circuit
pub mod Semaphore
pub mod Model
pub mod Economics
pub mod Route
pub mod Selection
pub mod Router
pub mod Value
pub mod Scopes
pub mod Capability
pub mod Tools
pub mod Sse
pub mod ToolLoop
pub mod Address
pub mod Ipv6
pub mod Egress
pub mod Handshake
pub mod Socks5
pub mod HttpConnect
