-- ===== src/Lib.antt =====
-- KeepTalkingSFU, a selective forwarding unit: clients hold one QUIC connection each, subscribe to
-- topics, and what a member of a topic's room publishes goes to the other members.
--
-- The program's parts and the files that model them:
--
-- src/proto.rs, the wire protocol. Proto/Tag, Reason, Close, StreamError, Priority and Limits are
-- its constants, Proto/Lane and Proto/Topic its small types, Proto/Topic/Hex the text of a topic,
-- as UTF-8 bytes. Proto/ClientFrame and Proto/ServerFrame are the two frame types with `encode` and
-- `decode`; Proto/Decode has the readers and the frame header that both share. A decoder returns an
-- `Outcome`: a value, an error, or a panic, which the readers of the `bytes` crate give on a short
-- buffer. Proto/Stream is `read_frame` and `read_lane_byte` on a stream that delivers its content
-- in any pieces and then ends, cleanly or with an error. The loop over the body is on fuel, one
-- more than the bytes that are left, and every round reads at least one of them. Proto/Snapshot is
-- `encode_snapshot`; its outer loop is on fuel, one more than the members, and every round but the
-- last takes at least one.
--
-- src/server.rs, the server. Server/Deliver, Server/BulkQueue and Server/Outbound are the queues
-- towards one client: `Budget`, the channels of the session and the lanes, and the bulk queue that
-- drops its oldest deliveries. Server/Stats has the counters, which wrap at 64 bits. Server/World
-- has the handles and slots and the queues of all connections, by connection number, since a handle
-- is a reference to them. Server/Rooms is `Rooms`: the sharded maps from topics to members. A
-- method holds its shard's lock throughout and is one step on the state; a history is any sequence
-- of steps.
--
-- Server/Bucket is the rate limits, over the operations of `f64` that they use as the parameter
-- `Doubles`, and Server/Limits the bounds with their defaults. Server/Session is `Session` and
-- `Readers`: `handle_frame`, `publish`, `leave_all`, `read_loop` and `read_lane`, whose loops are
-- on fuel, more than the bytes of the stream, on the rooms, queues and buckets. Server/Connection
-- is `serve_connection`: the wait for the session stream, the session with its loop, and the
-- teardown. Server/Datagrams is one round of `datagram_loop`, with Proto/Datagram for the
-- datagrams' form. Server/Slots is `ConnectionSlot`, where other tasks may run between the two
-- atomic operations.
--
-- Server/Writers is the tasks that write to the client: `write_chunks` and `open_lane`, and in its
-- child modules `session_writer`, `lane_writer` and `send_bulk`. `write_chunks` is on fuel, one
-- more than the bytes to write, since each write takes one at least; `session_writer` on fuel, one
-- more than the items of its queue; `lane_writer` runs over the deliveries that its channel gives.
-- `bulk_dispatcher` is the step relation of Server/BulkQueue/Bounds. Transport is what the code
-- calls of the QUIC library, as an interface of operations with the laws that its documentation
-- promises.
--
-- src/client.rs, the reference client. Client/Frames is `pump_frames`, Client/LaneStream is
-- `pump_lane`, both on fuel, a turn per byte of the stream and one; the receiver of their channel
-- is a test on the number of what it has taken. Client/Requests is what `SfuClient` sends, over
-- Transport. EndToEnd has the composition: the bytes that the server's writers put on a stream are
-- read by the client's pumps, and the frames that a client sends on a lane by the server's reader.
--
-- src/info.rs, the info endpoint. Info/Text is what it uses of `str`, on UTF-8 bytes, Info/Document
-- the JSON document with `sfu_info_json` and `SfuInfo::parse`, Info/Http the request and response
-- of `respond`, `exchange` and the end of `fetch_info`, and the delays of `serve`. Reading the head
-- is on fuel, one more than the buffer of 4 KiB. The texts of ids and URLs are read by parameters.
--
-- `iroh::EndpointId` is not part of the repository: it is the parameter `EndpointIds` of Proto/Ids,
-- 32 bytes that `from_bytes` has checked. A `HashMap` is an association list in the order in which
-- it is iterated, a `String` its UTF-8 bytes. Prelude has the library's shared helpers, Tests the
-- runs of the theorems on concrete inputs.
--
-- Not modelled: the QUIC endpoint, relay and TLS set-up (src/server.rs `Sfu`, src/tls.rs), the
-- programs src/bin/kt-sfu.rs and src/bin/kt-probe.rs, logging, sockets and timers, and the
-- interleaving of the atomic operations inside one method of a handle (its budget). The tasks that
-- accept connections and streams (`accept_loop`, `accept_lanes`, the client's `connect`) only call
-- the QUIC library and spawn the tasks that are modelled; of `serve_connection` the wait for the
-- writers is left out, and the readers and other connections that act between two turns of its
-- loop.
pub mod Prelude
pub mod Proto
pub mod Transport
pub mod Server
pub mod Client
pub mod EndToEnd
pub mod Info
pub mod Tests
