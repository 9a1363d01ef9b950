-- ===== src/Lib.antt =====
-- msg2agent: the message relay, its offline queue, its channels, its agents and conversations, its access
-- control, its circuit breaker and its usage meter.
--
-- The program lets agents, named by DIDs, exchange messages. A relay (cmd/relay) keeps a WebSocket
-- connection for each agent; `Route` hands a message to the recipient's connection, puts it into a
-- store-and-forward queue (pkg/queue) if the recipient is not connected, or fans it out to the members of a
-- channel (pkg/registry/channel.go). When an agent connects, the messages queued for it are delivered.
-- Access-control lists (pkg/security/acl.go) decide who may call what, and pkg/messaging/reliability.go has
-- the circuit breaker and the retries that callers wrap around a send.
--
-- Files:
--   Prelude              numbers, texts, lists, Go maps as association lists (Dict), sorting, strings
--   Queue                pkg/queue/queue.go: Config, QueuedMessage, DeadLetterMessage, the errors
--   Queue/Memory         pkg/queue/memory.go: MemoryStore and its methods Enqueue, Dequeue, Peek, Ack, Nack,
--                        GetQueueSize, GetDLQ, Cleanup, Close; the files below it hold the proofs, named for
--                        the method, and Run the histories of calls
--   Security             pkg/security/acl.go: CheckAccess, matchesPrincipal, matchesAction, PolicyBuilder
--   Registry/Channel     pkg/registry/channel.go: Channel and its methods
--   Registry/ChannelStore  the same file: MemoryChannelStore
--   Registry/Agent       pkg/registry/agent.go: Agent, its endpoints, capabilities and keys
--   Registry/AgentStore  pkg/registry/store.go: MemoryStore with its index by DID; File has FileStore, Index
--                        what the index promises, Reload what a registry read from its own file answers
--   Conversation         pkg/conversation/types.go and store.go: Thread, StoredMessage, MessageReceipt
--   Conversation/Memory  pkg/conversation/memory.go: MemoryStore; Queries has ListThreads and GetMessages,
--                        Marks the receipts; Participants and Counts hold the invariants, Steps the calls of
--                        a store as a step relation, Listing and Receipts what the answers are
--   Relay/Hub            cmd/relay/hub.go and cmd/relay/channel.go: Register, Unregister, Route,
--                        sendDeliveryAck, RouteToChannel, queueForOffline
--   Relay/ChannelRequest the requests of the channel handlers, and their replies
--   Relay/ChannelHandlers  cmd/relay/channel.go: the handlers of relay.channel.create, join, leave, list,
--                        members, delete and sender_key; Valid and Requests hold the invariant, Rules who may
--                        do what, Served a request with its answer, Race two requests that
--                        interleave
--   Relay/Deliver        cmd/relay/client.go: deliverQueuedMessages
--   Relay/Sender         cmd/relay/client.go: validateSender, didMatchesNamespace
--   Registry/Presence    pkg/registry/agent.go: AgentStatus, PresenceInfo, the status methods of Agent
--   Relay/Presence       cmd/relay/presence.go: PresenceManager and, in Handlers, the request handlers;
--                        Update has what a status update stores and sends
--   Messaging/Breaker    pkg/messaging/reliability.go: CircuitBreaker
--   Messaging/Retry      the same file: Retry
--   Billing/Meter        pkg/billing/meter.go: UsageMeter and MCPToolMeterMiddleware; Quota has what a call
--                        does, Race the atomic operations that change a counter, Snapshots what is
--                        persisted
--   Billing/Store        pkg/billing/store.go, tenant.go and apikey.go: Tenant, APIKey, MemoryStore
--   Billing/Rollover     pkg/billing/meter.go: checkRollover
--   .../Tests            concrete runs
--
-- How the code is read. A mutex makes each method one step, so a method is a function from the state to the
-- state and its result, and an error is a value. Times and durations are natural numbers; `time.Now()` is an
-- argument, read once in a call of a queue or channel method, and a sequence of readings in
-- deliverQueuedMessages. UUIDs are natural numbers, and fresh ones are arguments. Strings are lists of bytes.
-- A limit that is zero or negative means "no limit" in the queue, and is 0 here. The order in which Go walks
-- a map is the order of the entries, which no theorem fixes. `slices.SortFunc` is not stable: Dequeue and
-- Peek take any function that permutes and sorts as a parameter. A client is a handle, its `SendCh` the list
-- of frames that wait in it, at most 256; a send that would block takes the default case. Logs, metrics and
-- tracing are left out. In the hub the queue behind `queue.Store` and the store behind the channels are the
-- in-memory ones. `crypto.VerifySignature`, the printing of a UUID, the context, timers and the float64
-- product of the backoff are parameters.
--
-- The only loop that is not a walk over a list is the outer loop of deliverQueuedMessages. It runs on fuel;
-- each round that is followed by another takes a whole batch out of the queue, so as many rounds as messages
-- are queued, and one more, are enough.
--
-- An agent is modelled without `Metadata` and the schemas of its capabilities, which are arbitrary JSON.
-- A registry file is what `encode` made of the agents; json and the file system are parameters, and so are
-- `uuid.Parse`, the printing of a UUID (36 characters) and the sorts of the conversation store. A request
-- handler gets the parameters that were parsed. A method that reads a channel and writes it back is one step
-- in the handlers' theorems; Race takes the two parts of it apart.
--
-- Not modelled: the SQL stores, the HTTP and WebSocket handlers, the agent runtime, OAuth, MCP, the adapters,
-- Stripe and the audit chain of billing, the handlers of the relay for registration, discovery and typing,
-- DID parsing, cryptography and the rate limiters (float64 arithmetic): they are glue to libraries and
-- services, or wait for a later extension.
pub mod Billing
pub mod Conversation
pub mod Prelude
pub mod Queue
pub mod Security
pub mod Registry
pub mod Relay
pub mod Messaging
