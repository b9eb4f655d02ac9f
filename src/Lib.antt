-- ===== src/Lib.antt =====
-- The server side of ran-online: the network layer, the certification cipher, the database layer,
-- and the five servers of ranserver-linux.
--
-- A server accepts connections, each with a `Session`. A session's reads pass through a framer that
-- cuts the byte stream into messages, which the I/O threads put into the server's receive queue. The
-- update tick flips the queue and dispatches its messages one by one. A handler's answer is framed,
-- gathered in the session's send buffer, and sealed into one compressed envelope that is written to
-- the socket.
--
-- Files, by the code that they model (paths from the repository's root):
--   Packet, Packet/Framer: ranserver-linux/net/packet.{h,cpp}. EncodeMessage is `encode_message`, Feed
--     is `feed`. Its loop is `scan`, with fuel one more than the bytes that it holds: each turn takes
--     at least the eight bytes of a header, and Packet/Framer/Fuel shows that it never runs out.
--   SendBuffer: ranserver-linux/net/send_msg_buffer.{h,cpp}.
--   MinLzo: ranserver-linux/net/minlzo.{h,cpp}. LZO itself is the record `Lzo`, with its documented
--     behaviour in `IsLossless`.
--   Session: ranserver-linux/net/session.{h,cpp}. A method or a completion handler is a function from
--     a session to the session and the calls that it makes on the socket and the server; undefined
--     behaviour is `none`. Session/Closing has runs of any such events, Session/Delivery the
--     conversations of a session with its peer.
--   MsgManager: ranserver-linux/net/msg_manager.h.
--   MsgPack: ranserver-linux/net/msgpack_min.{h,cpp}. MsgPack/Format is a reader of the format.
--   CharLobby: ranserver-linux/servers/agentserver/char_lobby.h.
--   AuthCrypto: ranserver-linux/servers/authserver/auth_crypto.{h,cpp}: Rc5 the block cipher, Hex the
--     text form, Cbc the chaining and padding. Shifts of a word by its whole width are undefined in C++
--     and a parameter, `Shifts`; `IsHarmless` asks that joining their result to the word by `|` gives
--     the word, as it does where the result is 0 and where the machine masks the count.
--   Odbc: ranserver-linux/db/odbc_db.{h,cpp}. The ODBC driver is a parameter, `Driver`, from a
--     statement and its bound parameters to its answers.
--   Servers, AgentServer: ranserver-linux/servers/agentserver/agent_server.{h,cpp} and
--     agent_server_msg.h. The loops have fuel: the messages that the flip left, and the rows of the
--     result set.
--   Strings, AuthServer: ranserver-linux/servers/authserver/auth_server.{h,cpp} and
--     auth_server_msg.h, with the same fuel. AuthServer/Fields is about the comma-separated texts, AuthServer/Answer about what
--     the receiver of an answer reads.
--   NetServer: ranserver-linux/net/net_server.{h,cpp}. Its concrete server is a parameter, the record
--     `Hooks` of virtual methods, which AgentServer/Hooks and EchoServer fill. AgentServer/Gateway has
--     the gateway's runs.
--   Main: ranserver-linux/servers/*/main.cpp, of all five servers. Main/Process has the thread of `main`
--     and the signal handler as steps, Main/Runs the process as a run of NetServer.
--   EchoServer: ranserver-linux/servers/{loginserver/login_server,sessionserver/session_server,
--     fieldserver/field_server}.{h,cpp}, which differ in what they log only.
--   Base: lists over native numbers, Boolean tests, bit operations, integers, text literals.
--   Examples: tests, and the results below at concrete inputs.
--
-- Bytes and characters are natural numbers, strings and buffers are lists of them, and machine words
-- have their wrap-around written out. The calls on one session do not overlap, nor do the handlers of
-- one server, except in AgentServer/Gateway, where the I/O threads run between a message's look-up
-- and its handler, and in Main/Process and MsgManager/Fifo. The work memory of the LZO wrapper is
-- taken to be there when a buffer is sealed.
-- Not modelled: logging, sockets, threads and timers beyond the calls on them, the type names of
-- ranserver-linux/platform, and the smoke tests, which drive the parts above over real sockets, the
-- driver and the LZO library.
pub mod Base
pub mod Main
pub mod MinLzo
pub mod MsgPack
pub mod AuthCrypto
pub mod CharLobby
pub mod Odbc
pub mod Servers
pub mod AgentServer
pub mod AuthServer
pub mod Packet
pub mod SendBuffer
pub mod Session
pub mod MsgManager
pub mod Examples
pub mod Strings
pub mod NetServer
pub mod EchoServer
