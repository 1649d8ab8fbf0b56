-- ===== src/Lib.antt =====
-- ChatterTerminal, verified: the server's state and handlers, and the client's application with its
-- handlers, database, connection, encryption and audio framing.
--
-- The server keeps its tables in a database, and its connections, rate limits and calls in memory.
-- `Server.World` is all of that in one record, with what has been sent and the chunk files on
-- disk. A coroutine is a function of the world that returns or raises (Common/Exec); what was
-- written before a raise stays written. `Client.World` is the same for the client: its tables, the
-- state of its handlers, the packets in the queue of its connection, and what its application is
-- told. The random source, the clocks, the network, JSON and the cryptographic libraries are
-- fields of `Env`.
--
-- Common, Common/Tests, Common/Lists, Common/Dict, Common/Xor, Common/Exec: Boolean tests, lists,
-- Python dicts, exclusive or, and coroutines.
-- Shared/Protocol, Shared/Text, Shared/Words: shared/protocol.py, shared/constants.py, and the
-- methods of `str` that the sources use.
-- Server/World: server/db/schema.py and the in-memory dictionaries; World/Samples has test data.
-- Server/RateLimiter: server/rate_limiter.py; `allow`, `reset`. RateLimiter/Bounds has the proofs.
-- Server/Router: server/router.py.
-- Server/Offline: server/offline.py, server/db/messages.py; the proofs are in Offline/Queue.
-- Server/Auth: server/auth.py, server/db/users.py; Auth/Passwords, Auth/Accounts.
-- Server/Rooms: server/rooms.py; Rooms/Membership.
-- Server/Calls: server/call_manager.py, server/db/calls.py; Calls/Lifecycle has the state machine
-- of one operation, Calls/Traces sequences of operations.
-- Server/Files: server/files.py, server/db/files.py; Files/Chunks, Files/Expiry.
-- Server/Tcp: server/tcp_server.py; Tcp/Frames, Tcp/Receive.
-- Server/UdpRelay: the protocol class of server/udp_relay.py, and in UdpRelay/Registry its registry
-- of websockets; UdpRelay/Routes.
-- Server/Ws: server/ws_server.py. `on_raw` is one round of the loop in `handle`, `dispatch` its
-- chain of branches, `finish` its `finally`, `serve` the whole. The branches are in Ws/Login,
-- Ws/Messages, Ws/Transfers and Ws/Chats; the proofs in Ws/Gate, Ws/Presence, Ws/Delivery
-- and Ws/Forwarding.
-- Client/JitterBuffer: client/audio/jitter_buffer.py; JitterBuffer/Order, JitterBuffer/Stall.
-- Client/FileCrypto: client/crypto/file_crypto.py; FileCrypto/Chunks.
-- Client/Fingerprint: client/crypto/fingerprint.py; Fingerprint/Symmetry.
-- Client/AudioCrypto: client/crypto/audio_crypto.py; AudioCrypto/Nonces.
-- Client/Envelope: client/crypto/encrypt.py; Envelope/RoundTrip.
-- Client/AudioCodec: client/audio/codec.py.
-- Client/AudioStream: client/audio/stream.py; AudioStream/Frames, AudioStream/Drain.
-- Client/Stun, Stun/Probe: client/audio/nat.py; Stun/Search, Stun/Attributes.
-- Client/World: client/db/schema.py, and the attributes of the handlers; Reading has lemmas on
-- fields.
-- Client/Db, Client/FileTable: client/db; Db/Messages/History.
-- Client/MessageHandler: client/handlers/message.py; MessageHandler/Delivery.
-- Client/CallHandler: client/handlers/call.py, the packets that arrive in CallHandler/Incoming;
-- CallHandler/Keys, CallHandler/Lifecycle.
-- Client/RoomHandler: client/handlers/room.py; RoomHandler/Pending.
-- Client/FileTransfer: the chunks of client/handlers/file.py, and the uploads in
-- FileTransfer/Uploads; Pieces cuts and joins files, Frames is about one frame, Whole about an
-- upload and what a download makes of it.
-- Client/FileHandler: the rest of client/handlers/file.py; FileHandler/Offers.
-- Client/Keygen: client/crypto/keygen.py; Keygen/Storage.
-- Client/AuthHandler: client/handlers/auth.py; AuthHandler/Unlock.
-- Client/Connection: client/connection/ws_client.py, client/connection/reconnect.py;
-- Connection/Order.
-- Client/App: client/app.py. App/Keys has `_handle_key`, App/Commands `_submit` and `_run_command`
-- with the commands in App/Rooms, App/Files and App/Calls, App/Router `_on_server_message` with
-- App/Synced, App/Callbacks what the handlers call, App/Login `_do_auth`, App/Render `_render` and
-- a turn of `_ui_loop`. The proofs are in App/Editor (the line that is typed), App/Sending,
-- App/Unread, App/Arrival (a line that leaves, and one that arrives), App/Names and App/Locked.
-- Client/Screens: client/ui/auth_screen.py, client/ui/verify_screen.py and client/ui/input_bar.py;
-- Screens/Windows: the other windows of client/ui; the proofs are in Screens/InputBar.
-- Client/Samples, Client/Fixtures, MessageHandler/Fixtures, App/Fixtures: test data.
-- EndToEnd/Message: a direct message through a client, the server, and another client.
--
-- The handlers of Server/Ws call Auth, Rooms, Calls, Files, Offline and the registry; Tcp calls
-- Files, Offline and the registry. The client's handlers call Envelope, Db and FileTransfer;
-- AudioStream calls AudioCrypto, AudioCodec and JitterBuffer. App holds the client's world beside
-- its own state, runs the handlers on it, and is called back with what they have shown. The
-- text of a packet on the server's side, and the packet on the client's, are related in EndToEnd by
-- the server's `loads`. The files Tests run the code and apply the theorems.
--
-- Bounds and fuel. The upload loop runs on fuel: one more than the number of bytes that arrive,
-- since each round takes a header from them. The index and the length of a frame are below 2 ^ 32,
-- as `struct` demands. The receive loop of an audio stream has one round more than there are
-- frames in the jitter buffer, since each takes one out; the search of a STUN response has one for
-- each of its bytes, since an attribute takes four; the cutting of a file has one for each byte,
-- since a piece has one at least. The attempts of an upload are three, as in the source.
-- The forms of the login screen are counted by fuel, and the keys of a screen are a list, whose end
-- stands for a screen that still waits.
-- Everything else is by structural recursion.
--
-- Simplifications. The rate limiter counts tokens in fractions 1/per and time in ticks, without
-- float rounding. Numbers in JSON are natural numbers. A field that the code uses as a text, and
-- that holds another value, raises. One packet is handled in one step with one reading of the
-- clock, so that handlers do not interleave at an `await`. Rows are read in the order of insertion
-- unless the query sorts them. Writes to a TCP stream do not fail, what a client sends on one is a
-- list of bytes after which it closes the connection, and the wait for the
-- registration of an upload is over when the model begins. Locks, logging, TLS and paths on the
-- file system are left out.
--
-- In the client, a wait for a response is the border between two functions, audio devices and
-- sockets are left out, and a file is its path, name and bytes. X25519, HKDF, AES-GCM, base64 and
-- UTF-8 are parameters, with the laws that the code relies on as hypotheses: decryption undoes
-- encryption, decoding undoes encoding, and the two sides of a key exchange agree.
--
-- In the application, what else happens in the course of a wait is the parameter `meanwhile`, and
-- the handlers, which are made together at the login, read its name and key. `str.lower`, decimal
-- digits, the texts of exceptions and the two float expressions of the progress bar are
-- parameters.
--
-- Not modelled: start-up and configuration of the server, opening sockets, audio devices, the two
-- tasks of the application, and the drawing with curses: input and output.
pub mod Common
pub mod Shared
pub mod Server
pub mod Client
pub mod EndToEnd
