-- ===== src/Lib.antt =====
-- CCMeeting: video meetings. `message_server/` accepts WebSocket connections, reads JSON packets from
-- them, and lets a connection create a meeting room or join one; a room relays text, profiles and
-- settings between its participants and closes with its owner or when its time is over. `client/` is
-- the Qt program at the other end of these connections, and `data_server/` answers HTTP requests for
-- accounts, profiles and avatars.
--
-- MESSAGE SERVER (paths below message_server/src or message_server/include). One thread runs
-- `io_context`, so the program is a sequence of events, each of which runs one handler to its end:
-- `Meeting.Service.step` is one event on the whole state, `Meeting.World.World`.
--
--   Common          shared names; Common.Table is `std::unordered_map`, Common.Run what a call comes to
--                   (a result, or an exception that nothing catches and that ends the process)
--   Wire            big-endian integers, of protocol/codec.cpp and meeting/room.cpp
--   Base64          base64_encode and base64_decode of protocol/codec.cpp
--   Network.Buffer  network/buffer.cpp: the read buffer, with its positions and its growth
--   Network.Connection  network/connection.cpp: the send queue, the flags, and what a read puts into
--                   the buffer; closing, which calls the service back, is Meeting.Closing
--   Protocol.MessageType, Protocol.Codec  protocol/message_type.h and protocol/codec.cpp
--   Protocol.Json   nlohmann/json, which is not part of the repository: a record of its calls, and a
--                   record of the documented laws that the theorems rely on
--   Meeting.Room, Meeting.Relay  meeting/room.cpp: admission, payloads; what a room sends
--   Meeting.Closing  Connection::close, MeetingService::on_connection_close, Room::remove_participant,
--                   Room::close_room and MeetingService::cleanup_room, which call one another
--   Meeting.Manager  meeting/room_manager.cpp
--   Meeting.Service  service/meeting_service.cpp, and the events
--   Meeting.Consistent  what holds of the objects between two events, and, in its modules, that each
--                   handler keeps it: Leave, Drop, Shut, Cleanup, Members and Close for closing, Rewrite and
--                   Arrive for packets to a room, new connections, writes and timers, Found, Enter, Create,
--                   Join and Lobby for the lobby, Steps for the read loop and every event
--
-- Connections and rooms are shared objects: the state holds them in a store, and tables refer to them.
-- Widths are written out where the code cuts a number (`% 2 ^ 32`). The random room numbers are an
-- argument, one list for each message.
--
-- CLIENT (below client/src or client/include).
--
--   Client.Message, Client.Types  network/messageNet/message.h, message.cpp and netheader.h: the classes
--                   of messages, and their types
--   Client.Queue    the bounded queue of netheader.h; a call is one step under its lock
--   Client.Qt       QJsonDocument, QByteArray and QString, which are parameters, with the documented laws
--   Client.Payload, Client.Codec  network/messageNet/messagecodec.cpp: payloads, frames, the frame parser
--   Client.Interop  both programs at once: what one sends the other reads, where each JSON library finds in
--                   the other's text the members that were set
--   Client.Hub      MessageHub::emit_incoming, widget/meeting/meeting_protocol_dispatcher.cpp, and the
--                   three slots that forward messages to it
--   Client.Sending  the other functions of network/messageNet/messagehub.cpp: the sender threads and their
--                   epochs, as interleaved steps on what they share
--   Client.Session  widget/meeting/participants_controller.cpp and room_settings_controller.cpp
--   Client.Window   the slots of widget/meeting/meeting_widget.cpp that change the members or the flags of
--                   the session
--
-- A `qint64` or an `int` that may be negative is held as its bits in two's complement, a number below
-- `2 ^ 64` or `2 ^ 32`. `unsigned long` has 32 bits, as with MSVC, with which the client is built. Lengths
-- of buffers are taken to be below `2 ^ 31`, so that an `int` holds them.
--
-- DATA SERVER (below data_server/src or data_server/include).
--
--   Accounts.Model  model/user_info.h, model/login_result.h, config/auth_server_config.h
--   Accounts.Sqlite SQLite, which is a parameter: the results of its statements, on a state of its own
--   Accounts.Repository  repository/user_repository.cpp
--   Accounts.Service  service/auth_service.cpp and util/password_hasher.cpp; OpenSSL, the clock and the
--                   file system are a parameter, `Platform`
--   Accounts.Json   util/json_helper.cpp over nlohmann/json
--   Accounts.Files  http/static_file.cpp over std::filesystem
--   Accounts.Http   http/http_session.cpp: one request to one response
--
-- Tests holds concrete inputs for the theorems and concrete functions for the parameters.
--
-- Fuel: `close` takes two levels of nested calls of `Connection::close`. The read loop takes one
-- round for each readable byte and one more, since a round that goes on consumes at least four bytes.
-- The search for a free room number takes one round more than there are rooms. The client's loop over
-- participants' identifiers takes one round for each byte of the payload; the loop that prints a number
-- of 64 bits takes 20 rounds, one for each decimal digit.
--
-- Not modelled: Boost.Asio and Boost.Beast (sockets, handshake, timers, the HTTP acceptor), the opening
-- of the SQLite database, OpenSSL's Base64, the configuration loaders, and the log; of the client, the
-- waiting for sender threads and the socket of the connection, meeting history, storage and settings, the login
-- request, audio, video and recording, and the widgets.
pub mod Common
pub mod Wire
pub mod Base64
pub mod Network
pub mod Protocol
pub mod Meeting
pub mod Client
pub mod Accounts
pub mod Tests
