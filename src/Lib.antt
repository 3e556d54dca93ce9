-- ===== src/Lib.antt =====
-- A verification library of ZDM proxy, the Cassandra proxy of proxy/pkg/zdmproxy. A client's request
-- reaches the proxy on one connection; the proxy inspects it, decides to which of its two clusters
-- it goes, origin and target, gives it a stream id of each cluster connection, waits for the
-- responses, and answers the client with one of them.
--
-- Parts, in the order of a request's way:
-- - Protocol: forwardDecision, ClusterType and ClusterConnectorType, and what the proxy reads of the
--   protocol library's frames.
-- - Query, RequestInfo: what the inspection of a statement yields (queryinspector.go), and the request
--   infos (requestinfo.go) with the three decisions GetForwardDecision, ShouldAlsoBeSentAsync and
--   ShouldBeTrackedInMetrics.
-- - Messages: the messages that the proxy takes apart, and frameDecodeContext (cqlparser.go).
-- - Forwarding: getRequestInfoFromQueryInfo and buildRequestInfo (cqlparser.go) with their proofs in
--   Decisions and Batches. They use PreparedCache, the cache of pscache.go.
-- - Replacement: replaceFunctionCalls (queryinspector.go), which rewrites a statement without its calls
--   of now(), and QueryModifier: querymodifier.go, which does so in QUERY, PREPARE and BATCH frames.
-- - Parameters: ParameterModifier (parametermodifier.go), the values for the calls of now().
-- - StreamIds: streamIdMapper and internalStreamIdMapper (streamidmapper.go). Interleaving has the
--   atomic steps of concurrent calls, Invariant what holds after any of them, Replies the calls one
--   after another. Processor: streamIdProcessor (frameprocessor.go) over the mapper's interface.
-- - Requests: the request contexts (requestcontext.go) and pendingRequests (pendingrequests.go). A
--   method under a lock is one step; events in any order are lists.
-- - Responses: computeClientResponse and aggregateAndTrackResponses (clienthandler.go).
-- - PreparedResponse: processPreparedResponse (clienthandler.go), which hides the proxy's markers from
--   the client and stores the statement in PreparedCache.
-- - Execution: the frames that an EXECUTE and a BATCH become for each cluster (Frames, Batching), and the
--   answers to intercepted queries (Intercepted, Virtual). Handler: what a response changes before it
--   goes to the client (Responses), and the sending by forward decision (Sending); Prepared follows a
--   statement from its PREPARE to its EXECUTE. All of clienthandler.go.
-- - Lifecycle: the client handler's map of context holders, with executeRequest's storing, responseLoop,
--   finishRequest, cancelRequest and clearRequestContexts (clienthandler.go). handle_response and
--   handle_timeout are one goroutine's way with nobody in between; Interleaving takes the critical
--   sections of all goroutines one at a time, Phases has the invariant, Ends what follows from it.
--   Timeouts, Storing, Arrival and Write follow a request to its end.
-- - Dispatch: executeRequest (clienthandler.go), which composes Execution, Lifecycle and Handler, and the
--   copy of a request for the async connector, sendToAsyncConnector. Stored is about what a request
--   leaves behind, Copies about the frames of a read and its copy. Forward is forwardRequest, which
--   inspects a frame by QueryModifier and Forwarding before; Forwarded is about what it leaves, and
--   Answered follows a request to its answer.
-- - Credentials: the tokens of auth.go, and which credentials each connection gets (clienthandler.go).
--   Handshake: the secondary handshake of startup.go, which the proxy performs with them.
-- - Connector: the sending and receiving of the async connector (clusterconn.go) over Processor, Requests
--   and PreparedCache. Exchange follows a request to its response, Discards one that is not sent.
--   A send with its failure is one goroutine's way; no timer or clearing comes into it.
-- - SystemTables: system.local and system.peers as clients see them (nativeprotocol.go).
-- - Topology: the assignment of hosts, the tokens of virtual hosts, the datacenter filter, the round
--   robin and the negotiation of the protocol version (controlconn.go).
-- - TimeUuid: the generator of timeuuid.go, with the fields of its uuids (Layout) and their difference
--   (Distinct). Config: the settings of the topology, the contact points and TLS
--   (proxy/pkg/config/config.go).
-- - Prelude and Samples: what the parts share, and the values that the tests use.
--
-- Correspondence. A function has the name of the Go function in snake case. A method takes the state
-- and returns it beside the result. A Go map is an association list, a channel of ids a list, a nil
-- pointer `none`, a value or an error a Result. A panic is a value of its own (`panics`, `none`).
-- int16 stream ids are ℤ: the ids that the proxy makes are below 2048. Tokens are computed in big
-- integers by the code and here in ℕ and ℤ.
--
-- Bounds and fuel. Loops over lists and counters are structural; the loop over a batch's map takes
-- its entries in any order. The negotiation runs on fuel: five rounds, since a refused version is
-- downgraded at most four times; and so does the handshake: seven, since the seventh finds that
-- the six attempts are used up.
--
-- Parameters. The protocol library's codec and the generated CQL parser (Codec in Messages,
-- `decode` in PreparedResponse and Handler, `encode` in QueryModifier, `convert` in Execution and
-- Handler), its version numbers (ProtocolVersions), the codecs of column types (`encode` in
-- Parameters), the uuid library (`new_sha1` in Topology/Tokens), the uuid generator behind its
-- interface (`get_time_uuid`, which TimeUuid implements over a `clock`) and the outcome of a
-- connection attempt (`attempt` in Topology/Negotiation), what a cluster replies to a frame of the
-- handshake (`exchange` in Handshake), and md5 (SystemTables/Results).
-- Setting in Dispatch bundles those that executeRequest uses, Inspection in Dispatch/Forward the others
-- of forwardRequest.
--
-- Not modelled: network I/O, goroutines around the modelled steps, TLS, HTTP, the metrics beside
-- those that modelled operations write, logging and messages of errors, the generated parser; and
-- of the proxy's own logic so far the client handler's request loop and handshake and the other
-- settings of the configuration.
pub mod Prelude
pub mod Protocol
pub mod StreamIds
pub mod Query
pub mod RequestInfo
pub mod Requests
pub mod Responses
pub mod PreparedCache
pub mod Handler
pub mod Lifecycle
pub mod Messages
pub mod Config
pub mod Connector
pub mod Credentials
pub mod Handshake
pub mod Dispatch
pub mod Execution
pub mod Forwarding
pub mod SystemTables
pub mod TimeUuid
pub mod Topology
pub mod Parameters
pub mod Processor
pub mod PreparedResponse
pub mod Replacement
pub mod QueryModifier
pub mod Samples
