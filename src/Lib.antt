-- ===== src/Lib.antt =====
-- grpc-webnext: gRPC for browsers, over Fetch and over WebSockets.
--
-- The server library (rust/crates/grpc-webnext) takes a Fetch request or a WebSocket, turns it into a
-- gRPC call of a backend, and turns the reply into frames. The client library
-- (rust/crates/grpc-webnext-client) makes gRPC calls over HTTP/2 in a WebSocket. The parts:
--   Wire.BigEndian and Wire.Grpc: `frame` and `Deframer` of rust/crates/grpc-webnext/src/grpc_framing.rs.
--     `pull_all` is the loop of `next_message`, and `pump` the reader of a body in ws.rs.
--   Wire.Fetch: the blocks of a Fetch response, framing.rs of the same crate.
--   Wire.SizeLimit: the guard `GrpcSizeLimit` of h2ts.rs, byte by byte as the code reads.
--   Client.Deframer, Client.Status, Client.Terminal: codec.rs and status.rs of the client.
--   Client.Channel: the tunnel of client.rs, its dials and its state; what runs between two awaits is a
--     function, and Steps is the relation of their interleavings. Client.Watch is state.rs.
--   Client.Call, Client.Streaming: the calls of client.rs, from the request's headers to the answer.
--     Client.Methods is its four kinds of call, and Client.Typed is typed.rs.
--   Client.Tonic: tonic_service.rs of the client, the transport of generated stubs; a body is what its
--     polls find, and Send is the call.
--   Client.Metadata, Client.Url: metadata.rs and url.rs of the client.
--   Backend: what the server sees of a reply. Transcoding: what it uses of a `Transcoder`.
--   Fetch: fetch.rs. Handle is the routing, Upgrade the WebSocket handshake, Request the request
--     bodies, Upstream the headers of the gRPC request, Unary the binary and Json the JSON calls,
--     Response what they answer. Ws.Serve serves what Upgrade lets through.
--   Metadata: metadata.rs; a `Duration` is a number of nanoseconds. Its child Appended is the header
--     maps as the lists of what was appended.
--   Ws.Frame, Ws.Json, Ws.Codec: the frames of proto/grpc_webnext.proto, their JSON form
--     (json_frame.rs) and the codecs and close frames of ws.rs.
--   Ws.Stream: `run_stream` of ws.rs, the task of one stream, as the list of what it sends.
--   Ws.Serve: `serve` and `handle_frame` of ws.rs; a turn of the `select!` is an event, and what the
--     loop does to its channels and its task is a list of effects.
--     Ws.Stream.Request is the request that the task makes. Ws.Writer is the task that writes, and Delivers the two together.
--   HttpRule: the templates, the matcher, the router and the compilation of annotations, httprule.rs;
--     Message sets fields from texts, and Build makes a request message of a URL and a body.
--   Transcode: transcode.rs, which fills the interface Transcoding. Schema: schema.rs.
--   Reflect: reflect.rs. Fetch is the exchange with a reflection service, Load what is made of all
--     services, Sorted and Known the order of the descriptor files.
--   Runtime: the configurations of lib.rs and backend.rs. Its child Tunnel is h2ts.rs: the handshake,
--     and the calls of an in-process tunnel behind the guard of Wire.SizeLimit.
--   Drain: drain.rs and the accept loop of lib.rs. Steps is the relation of the interleavings of the
--     loop, the connections and the tasks of their requests.
--   Text: functions of Rust's standard library on bytes, and the percent coding of metadata.rs.
--   Prelude: shared operations on native numbers, lists and byte strings.
--   Examples: the theorems at concrete inputs.
-- A text is the list of its UTF-8 bytes. A call that may panic answers in `Outcome`.
--
-- Fuel: `pull_loop` has a round for each byte of the buffer, and a message takes five bytes;
-- `inspect_loop` has two rounds for each byte, since a round takes a byte or ends an empty message;
-- `push_loop` has one round more than bytes; `finish_loop` of a stream needs one round more than
-- messages that are ready and bytes that are held or to come; `decimal_loop` one more than the number. The recursion of `visit` takes
-- one for each rank of a file. Where the fuel
-- could show in an answer (`stuck`, `no_fuel`), a theorem says that it does not.
--
-- Parameters: prost, serde_json, the http and tonic maps, prost_reflect, base64 and the backend. What is
-- used of them is a field of a record, and what is assumed of them is a named hypothesis.
--
-- Not modelled: sockets, timers and tasks of tokio, hyper and h2ts; the clock of a deadline (when it
-- fires is a parameter); web.rs of the client, which calls the browser; the codecs that only call prost; the command line of the proxy; the test servers.
pub mod Prelude
pub mod Backend
pub mod Fetch
pub mod Transcoding
pub mod Transcode
pub mod Schema
pub mod Reflect
pub mod Wire
pub mod Client
pub mod Drain
pub mod Runtime
pub mod Text
pub mod HttpRule
pub mod Ws
pub mod Metadata
pub mod Examples
