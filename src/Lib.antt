-- ===== src/Lib.antt =====
-- The server library on io_uring: its sessions and buffers, its router, its WebSocket framing, its job
-- system, its web tokens and the game services: the presence of players, the matchmaker and matches.
--
-- A Session keeps a receive and at most one send in flight at the ring and lives until the last of them
-- has completed. It receives bytes into a RecvBuffer and hands them to a protocol; what it sends lies in
-- SendBuffers, which are cut out of chunks, and waits in a SendQueue. HTTP requests are led to their
-- handlers by the Router with its RadixTree, through the middlewares of a RouteGroup. WebSocket input
-- goes through WsFrameParser, which reports frames; WsFrameBuilder builds the frames that are sent. Work
-- for one object is serialised by a JobQueue, which registers itself with the global queue that the
-- reactors' threads serve; jobs for later wait in a JobTimer. The matchmaker and each match are
-- JobQueues; the MatchRegistry holds the matches, and with the PresenceTracker they share the
-- PlayerRegistry. JwtCodec makes and checks the tokens of the sessions, which AuthService issues and the
-- auth middlewares ask for. The reverse proxy hands a request to the UpstreamPool, whose sessions carry
-- it to another server, and makes a response of the answer.
--
-- Buffer/Recv: include/servercore/buffer/RecvBuffer.h. The class is the record RecvBuffer, Append,
--   OnWrite, OnRead and Compact return the new record. Positions are std::uint32_t with their
--   wrap-around; a copy out of bounds is the value fault.
-- Buffer/Send: include/servercore/buffer/SendQueue.h. Each operation holds the mutex throughout, so
--   the threads' calls are a sequence.
-- Session: src/io/Session.cpp over the SendQueue. The record Ring is what the kernel has of the
--   session's requests; whether a Prep call finds a free entry is an argument (Room), and a
--   completion is a step that needs its request in flight. pending_io_ is its 32 bits. What the
--   application calls from OnRecv is a list of actions; ReleaseOwnership, which nothing calls, and
--   calls from OnDisconnected and the overflow callback are left out.
-- Web/RadixTree, Web/Router: src/web/RadixTree.cpp, src/web/Router.cpp. A node is data with its
--   static children, its parameter child and its wildcard's handlers; Insert rebuilds the path to the
--   node it changes. A view of the path keeps where it starts, so that the capture of a wildcard is
--   computed as the code does, and is invalid where its pointers are unrelated. What a handler does
--   is an argument of Dispatch.
-- Web/Method, Web/Middleware: include/serverweb/HttpMethod.h, src/web/Middleware.cpp,
--   src/web/RouteGroup.cpp. A group's routes are values with the path and the wrapped handler that
--   are handed to Router::Route.
-- Web/Request, Web/Response, Web/Context: include/serverweb/HttpRequest.h, src/web/HttpResponse.cpp,
--   include/serverweb/HttpStatus.h, ParseUrl of src/web/HttpParser.cpp and RequestContext. The views of
--   the lazily parsed query are their texts. A status is its number. Loops over a text run on as many
--   rounds as it has characters, since each round takes one or more.
-- Web/HttpParser, Web/HttpSession: src/web/HttpParser.cpp, src/web/HttpSession.cpp. llhttp is the record
--   Llhttp: a step that answers the calls it has made, and how it stopped. It is taken to pause behind
--   one byte at least, and exactly where on_message_complete tells it to. Feed runs on as many rounds as it
--   has bytes, since a round that goes on takes one or more. The handlers are a function of the
--   context; it says whether the session has become a WebSocket, behind what it has sent.
-- Web/StaticFiles, Web/Cors, Web/Handshake: src/web/middleware/StaticFiles.cpp,
--   src/web/middleware/Cors.cpp, src/web/ws/WsHandshake.cpp and the handler of WebServer::WebSocket.
--   The record Files is what the file system answers; SHA-1 is an argument.
-- Web/Auth, Web/AuthService: src/web/middleware/Auth.cpp, src/web/middleware/CookieAuth.cpp,
--   src/web/auth/AuthService.cpp. A middleware is a function of what comes next; an exception that
--   leaves the chain is a flag of the context. The database's answers are arguments.
-- Web/Upstream, Web/Proxy: src/web/UpstreamSession.cpp, src/web/UpstreamPool.cpp,
--   src/web/ReverseProxy.cpp. What the kernel has of a session's requests is counted in it; a
--   completion is a step, with the answers to what the handler then asks. The loop over the header
--   lines runs on header_end rounds: a round takes two characters or more.
-- Buffer/Chunk: include/servercore/buffer/SendBuffer.h without BufferPool. A living buffer is its
--   offset in the chunk and its sizes; OnRelease has two halves, fetch_sub and the question for
--   Full(), between which other threads act. std::uint32_t wraps around.
-- WebSocket/Frame, WebSocket/Parser: include/serverweb/WsFrame.h, include/serverweb/WsFrameParser.h,
--   src/web/ws/WsFrameParser.cpp. One definition for each case of the switch in ParseBuffer, for
--   ProcessFrame and for Feed; a call of a callback is an entry of events. The callbacks are taken
--   as set, and they do not call the parser again. The loop runs on 2 * n + 2 rounds for n
--   bytes: a round takes a byte or leaves the state Payload.
-- WebSocket/Builder: src/game/WsFrameBuilder.cpp. WebSocket/Wire is the layout of RFC 6455, written
--   without regard to the code.
-- WebSocket/Session: the WebSocket side of src/web/HttpSession.cpp, over the parser and RecvBuffer. What
--   a session does is a list of effects; the callbacks of the application are entries of it.
-- Job/Queue: include/servercore/job/JobQueue.h, src/job/JobQueue.cpp. Push and Execute are cut at
--   their atomic actions, and threads take them in any order. A job is a number; what it does to
--   other objects is not modelled, but it may push. job_count_ is an std::int32_t, and fewer than
--   2 ^ 31 jobs are counted at any time. Memory order weaker than that of the mutex and the atomic
--   counter is not modelled. deadline and clock are an answer that is free at each question.
-- Job/Timer: src/job/JobTimer.cpp. std::priority_queue is a list in the order of its top(); jobs
--   of equal times, whose order the library leaves open, are in the order of arrival.
-- Presence/Registry, Presence/Tracker: src/game/PlayerRegistry.cpp,
--   src/game/presence/PresenceTracker.cpp. A hash map or a hash set is a list (Common/Maps), whose
--   order stands for the unspecified order of iteration. Each call holds the mutex throughout, so
--   the calls are a sequence. The tracker's frames are those of WsFrameBuilder.
-- Jwt/Base64, Jwt/Codec: src/web/auth/JwtCodec.cpp. A text is a list of codes. HMAC-SHA256 under the
--   secret and the JSON library are the fields of the record Libraries; the members iat and exp are
--   64-bit words, and exp is read as a signed one where the code compares it.
-- Matchmaker/Query: src/game/matchmaker/QueryParser.cpp. A position in the query is the rest of the
--   text; the loop runs on as many rounds as the query has characters, since each takes one or more.
-- Matchmaker/Queue, Matchmaker/Pairing: src/game/matchmaker/MatchmakerQueue.cpp: tickets that come, go
--   and expire; TryMatch with its joins and packets. The handlers run one after the other, as the
--   JobQueue below them guarantees. `used` and `group` are flags along the tickets; MatchRegistry's
--   answer for each ticket that asks for a match is an argument.
-- Match: src/game/match/Match.cpp without ticks: who takes part, and in Match/Sends what is sent. The
--   calls of the application's MatchHandler are recorded, and its answer to JoinAttempt is an argument; it is
--   taken not to call the match's leave or terminate in between, which only queues a job.
-- Match/Registry: src/game/match/MatchRegistry.cpp, a map from numbers to matches of any type.
--
-- Not modelled: the kernel and liburing, llhttp, OpenSSL, libpq and sqlite3, and what only passes
-- calls on to them (IoRing, Listener, the PostgreSQL storage layer). Of the rest: the lists of the buffer
-- pool, MpscQueue, GlobalQueue, RingBuffer, the start of WebServer, the ticks of a match, the notification
-- service; and the examples, tools and the frontend, which are programs of their own.
mod Common
pub mod Buffer
pub mod WebSocket
pub mod Job
pub mod Presence
pub mod Matchmaker
pub mod Match
pub mod Jwt
pub mod Session
pub mod Web
