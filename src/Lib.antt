-- ===== src/Lib.antt =====
-- The TypeScript client of gRPC-Web. One request is one GrpcClient (client/grpc-web/src/client.ts):
-- its user calls start, send, finishSend and close and registers callbacks; it calls a transport
-- (WebSocket, fetch, XHR, ...), which calls back onHeaders, onChunk and onEnd. Requests go out as
-- frames of a flag byte, four bytes of length and a payload (util.ts); the bytes of a response go
-- through ChunkParser.ts, which gives out messages and trailers as their frames become complete; the
-- client deserializes them and tells its callbacks. Status codes are those of Code.ts.
--
-- Files, by the source that they model (paths below client/grpc-web/src/ unless they say otherwise):
--   Prelude         shared helpers: numbers, lists, strings of UTF-16 units, results.
--   ChunkParser     ChunkParser.ts. ChunkParser/Ascii: decodeASCII, encodeASCII. ChunkParser/Slice:
--                   sliceUint8Array. `turn` is one round of the loop of `parse`, `loop` the loop.
--                   View, Decode, Append, Drained, Split, Frames, RoundTrip, Later, Balance:
--                   proofs.
--   Framing         util.ts, and frameResponse and frameTrailers of
--                   client/grpc-web-fake-transport/src/index.ts. Framing/Wire: their layout.
--   Code            Code.ts.
--   Client          client.ts. Types: fields and environment; Requests: the user's methods; Callbacks:
--                   rawOnHeaders, rawOnMessage, rawOnEnd, rawOnError; Responses: onTransportHeaders,
--                   onTransportChunk, onTransportEnd, decodeGRPCStatus, getStatusFromHeaders;
--                   Session: a whole life of a client. Parts, Keeps: what every operation is made
--                   of, for invariants. Protocol, Silence, Cancelled, EndCalls, Ends, Passive,
--                   Delivery, Outcome, Replay, Ended, Endings, Liveness, HeaderFrame: proofs.
--   Websocket       transports/websocket/websocket.ts. Address, Order, Exchange: proofs.
--   Xhr             transports/http/xhr.ts. Chunks, Exchange: proofs.
--   Fetch           transports/http/fetch.ts. Run: events, as a relation; Cancel, Exchange:
--                   proofs.
--   Invoke          invoke.ts. Whole: proofs.
--   Unary           unary.ts. Output: proofs.
--   Transports      transports/Transport.ts, transports/http/http.ts, transports/http/xhrUtil.ts and
--                   the choice in createTransport of client.ts. Choice: proofs.
--   FakeTransport   client/grpc-web-fake-transport/src/index.ts: the builder, and what its triggers
--                   report. Session: the transport in use. Whole, Exchange, Errors: proofs.
--   ReactNative     client/grpc-web-react-native-transport/src/index.ts. Detach: detach and
--                   runCallbacks. Text: stringToArrayBuffer. Transport: the classes, and the one
--                   queue that all transports share. Whole: a request with its events, timers
--                   and what other requests detach between them. Detach/Order,
--                   Detach/Drain, Detach/Quiet, Exchange: proofs.
--   NodeHttp        client/grpc-web-node-http-transport/src/index.ts. Copies, Headers, Whole: proofs.
--   Js              what the code uses of JavaScript: parseInt(s, 10) and decodeURIComponent.
--   Tests, and the modules Tests of Client, Unary, Websocket, Xhr, Fetch, Transports,
--   FakeTransport, ReactNative and NodeHttp: small inputs. Prelude/Tests: Boolean tests.
--
-- State and errors. A class with fields is a record that operations take and return; an exception
-- is a value: `thrown`, or `some` message beside the state that was reached when it was thrown.
-- What the client and the transport do to the outside is in a log, newest first. `new Metadata`
-- may throw, in `start` on the user's argument too, behind the assignment to `started`: the log of
-- the client holds that call when it throws, in the place of the start of the transport. A
-- callback is a number; what it does is a Script of the environment, which may return, throw, or
-- call methods of the client and go on, so that callbacks that call back into the client, close it
-- or throw are in the model.
--
-- Bounds and fuel. The loop of `parse` is recursion on accessibility: each round that goes on
-- leaves at least five bytes fewer behind the position. The decoder of the whole stream has one
-- more unit of fuel than there are bytes. Callbacks are finite scripts. Timers of the React Native
-- transport go off as steps; as many as what waits weighs are enough to empty the queue, for
-- callbacks that detach only finitely long chains of others. Lengths of frames are four bytes, and
-- statements about frames ask that a payload fits them. Bytes and UTF-16 units are natural
-- numbers; what an array or a string keeps of a larger one is written out.
--
-- Parameters. The package browser-headers (the class Metadata, its constructor, which may throw,
-- get, set, forEach and the copy), the generated message classes (serializeBinary,
-- deserializeBinary), the user's callbacks and transport factories, Node's Buffer from a string,
-- its http, https and url, the browser's XMLHttpRequest, fetch and WebSocket and what it says of
-- them, and whether typed arrays have `slice`.
--
-- Not modelled. Debug output. Transports that call back before the method that they are called by
-- returns, and transport methods that throw. Callbacks that change a Metadata object that they are
-- given. Numbers above 2 ^ 53 and the sign of zero in parseInt. That `set` changes the trailers
-- that the builder of a fake transport was given. The options that are passed on to fetch. The
-- generated code and the example application, the integration tests and their harness, and the
-- server side, which is written in Go.
pub mod Prelude
pub mod ChunkParser
pub mod Framing
pub mod Js
pub mod Code
pub mod Client
pub mod Websocket
pub mod Xhr
pub mod Fetch
pub mod Invoke
pub mod Unary
pub mod ReactNative
pub mod NodeHttp
pub mod FakeTransport
pub mod Tests
pub mod Transports
