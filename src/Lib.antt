-- ===== src/Lib.antt =====
-- Models of the screen-sharing program: a desktop application whose host runs the room (signaling, media
-- forwarding) and whose peers reach it through a small hosted relay.
--
-- How the parts interact. The relay (server/src) keeps one room per host socket, gives every peer of the
-- room a connection id, and routes frames between them without reading them. The links of both ends
-- (src/main/net) speak the relay's wire format. Inside it runs the control plane: after a handshake in
-- plain text both ends of a connection are upgraded, and every further message is an authenticated frame.
-- The host's signaling server (src/main/signaling) limits handshake attempts, admits peers, watches each
-- connection by a heartbeat and keeps the roster; from the roster every peer computes who takes over when
-- the host leaves (src/main/election), and the successor claims the host's room at the relay. The media
-- plane of the host (src/main/sfu) routes streams from publishers to subscribers and chooses every
-- stream's quality.
--
-- The files, by the code that they model:
-- - Prelude: the names and lemmas that the components share. JavaScript's Map is an association list in
--   insertion order (Prelude/Dictionary), a string is its list of UTF-16 code units (Prelude/Text), a buffer
--   a list of numbers (Prelude/Bytes).
-- - Relay/Wire: server/src/wire.ts. Relay/Registry: the class Relay of server/src/relay.ts; its handlers
--   onHello, onMessage, onClose and sweep are on_hello, on_message, on_close and sweep, which take the state
--   and return the next one with what is sent and closed (Relay/Registry/State).
-- - Protocol, Protocol/Schema: src/shared/protocol.ts, its message types and what its schemas ask of them.
-- - Net/RelayWire: src/main/net/relay-wire.ts. Net/FrameCodec: src/main/net/frame-codec.ts.
--   Net/RelayLink: the links of src/main/net/relay-link.ts; Net/RelayLink/Retry: its openWithRetry.
--   Net/Connection: the class Connection of src/main/net/connection.ts.
-- - Crypto/Aead, Crypto/Lv, Crypto/Kdf and Crypto/Cpace: the files of src/main/crypto of these names.
-- - Signaling/RateLimit, Signaling/Heartbeat and Signaling/Roster: the files of src/main/signaling of these
--   names. Signaling/Server: the class SignalingServer of src/main/signaling/server.ts, an async method as the
--   steps between its awaits. Signaling/Client: the class SignalingClient of src/main/signaling/client.ts.
--   Signaling/Handshake: both roles of src/main/signaling/handshake.ts as state machines.
-- - Election/Succession: src/main/election/succession.ts.
-- - Sfu/Governor: src/main/sfu/governor.ts. Sfu/Router: the class SfuRouter of src/main/sfu/router.ts, with the
--   callbacks that publish and subscribe install on the state of a peer connection. Sfu/MediaPlane: the
--   class SfuMediaPlane of src/main/sfu/media-plane.ts, which feeds the router's events to the governor.
-- Below each, a module per group of theorems; the Examples modules evaluate them on concrete inputs.
--
-- Correspondence. A method of a class is a function that takes the object's state and returns the next
-- one; a callback or a send is an output; an exception is an error value or none. The clock's value,
-- random nonces and fresh tokens are arguments. Sockets are objects with an identity, here a number.
-- Numbers are exact; what Node writes with writeUInt32BE has the bound 2^32 and throws above it (none).
-- Loss, CPU pressure and factors of the quality ladder are whole numbers of millionths, percents and
-- tenths.
--
-- Parameters. Node's AES-256-GCM (Crypto/Aead.Gcm), JSON (Prelude/Json), zod's schema of a hello
-- (Relay/Wire.HelloSchema), JSON with the schemas of the control plane (Net/Connection.MessageCodec, with
-- the law that an envelope which meets the schema and fits a frame is read back), what a connection's
-- listeners do with the listeners, the functions of @noble/hashes and @noble/curves (Crypto/Kdf.Hashes,
-- Crypto/Cpace.Group with the laws of a group of prime order, Signaling/Handshake.Hex), and
-- String.prototype.toLowerCase (Signaling/Roster, Signaling/Server). The outcome of a handshake, of a
-- reachability probe and of werift's negotiation, and the tracks that a publisher got, are arguments of
-- the steps after their awaits, so that other calls may run between.
--
-- Fuel. leb128's loop runs on one more than the number encoded as fuel, which is more than its count of
-- seven-bit groups. lvLen's loop has the number itself as fuel, and divides by 128 in every round.
-- openWithRetry has two rounds more than its budget has spans of 1.5 s, the shortest wait between two
-- rounds.
--
-- Not modelled: the WebSocket, UDP and HTTP input and output, werift's peer connections, the renderer and
-- the Electron shell; the parked failover code, which is not built; and, so far, STUN and the room
-- session.
pub mod Prelude
pub mod Protocol
pub mod Relay
pub mod Net
pub mod Crypto
pub mod Signaling
pub mod Election
pub mod Sfu
