-- ===== src/Lib.antt =====
-- azoth: a Go library that the applications of its author share for talking to language models and
-- for running their tools. A model is reached through `llm` (requests, retries, streamed answers,
-- loop guards), tools are kept in `tools`, databases are migrated by `store`, and connections that a
-- model chooses are screened by `netsec`.
--
-- Base       shared helpers: Boolean tests, lists, Go's `int`, byte strings.
-- Pool       llm/pool.go, the bounded pool with a first-come queue. A state holds every call of
--            `Acquire` so far with the point that it is at; each critical section, each channel
--            operation and each timeout or cancellation is one step, so that a run is any
--            interleaving.
-- LoopGuard  llm/loopguard.go, the detectors of repeated and of stale text.
-- ToolCall   llm/toolcall.go, the assembly of streamed tool calls, over the types of
--            llm/messages.go.
-- Message    llm/messages.go: messages, their wire shapes, the filter for requests, usage.
-- Transport  llm/neterr.go and llm/connstate.go (error categories, connection tracker),
--            `parseRetryAfter` of llm/apierror.go, the request loops of llm/openai.go, for which
--            the network is a script: what the n-th attempt meets, and llm/probe.go (Probe), the
--            goroutines that wait for a lost endpoint.
-- Chat       the stream loop of `Chat` in llm/openai.go, over Sse, LoopGuard and ToolCall. What the
--            loop waits for is a list of arrivals, payloads and silences; each part of the loop is
--            a stretch of events with the way it ends.
-- Complete   llm/stream.go and llm/complete.go, the loop over a turn's events and the one completion
--            that is collected from them.
-- Blocks     the meaning of a stream of content blocks, read off the events before.
-- Anthropic  llm/anthropic/anthropic.go: `streamAnthropic` (Stream), `splitSystem` (Messages),
--            `toAnthropicTools` (Schema), `buildAnthropicParams` with the cache markers (Params).
-- Bedrock    llm/bedrock/bedrock.go: the Converse stream (Stream), the messages of
--            `buildConverseInput` (Request), the whole request with thinking and cache points (Input).
-- Vertex     llm/vertex/vertex.go: the stream of `Chat`, as a walk over the responses that the SDK's
--            iterator yields (Stream), and `buildVertexRequest` (Parts, Request).
-- Sse        llm/sse.go, the reader of Server-Sent Events, over the lines of the library's scanner.
-- Ipc        ipc/ipc.go, the length-prefixed frames of the local sockets, over the bytes that arrive.
-- Netsec     netsec/netsec.go and netsec/dialer.go, the address denylist and the guarded dial.
-- Migrate    store/migrate.go, versioned schema migrations. The file system and the database are
--            parameters.
-- Registry   tools/registry.go, the registry of tools and its cached definitions.
-- Args       tools/args.go, the extraction of a tool's arguments.
--
-- `int` and `int64` are integers with their wrap-around written out where a result could leave the
-- range; strings are lists of bytes, and runes are numbers. A Go map is an association list with one
-- entry for a key. The loop of `doChatRequest` is given its three rounds; the unbounded loop of
-- `doChatRequestRetryingStatus` is given fuel for one round more than the retries that are set,
-- which is as many rounds as it makes.
--
-- Not modelled: log lines and the debug log; the text level of JSON, base64, HTTP and SQL, which
-- belongs to libraries and is a parameter where the code relies on it; the vendors' SDKs, of whose
-- values the fields that the adapters use are data types; guardrails; the SDK client
-- and the safety settings of Vertex, the pooled client, inline tool calls, peer credentials, paths
-- and the token estimate.
pub mod Anthropic
pub mod Args
pub mod Base
pub mod Bedrock
pub mod Blocks
pub mod Chat
pub mod Complete
pub mod Ipc
pub mod LoopGuard
pub mod Message
pub mod Migrate
pub mod Netsec
pub mod Pool
pub mod Registry
pub mod Sse
pub mod ToolCall
pub mod Transport
pub mod Vertex
