-- ===== src/Lib.antt =====
-- A hybrid FTP client and server: commands and replies over a TCP control channel, files over UDP with a
-- reliable transfer of the program's own. Paths below are from the repository's root.
--
-- Base holds what all modules share: Boolean tests, lists with native lengths, and texts (lists of code
-- points, with `strip` and `upper` on ASCII letters and blanks).
--
-- Shared models the directory shared/.
-- - Shared.Constants: constants.py. Times are in milliseconds.
-- - Shared.Checksum: `compute_checksum` and `verify_checksum` of checksum.py. `fold_carry` is the inner loop,
--   by recursion on the accessibility of the sum, so it has no fuel. Norm describes it by the plain sum of the
--   16-bit words; Detect is about damaged packets.
-- - Shared.Packet: `pack_packet` and `unpack_packet` of packet_struct.py. struct.error and ValueError are `none`.
-- - Shared.BlockMode: block_mode.py. The loops have the number of bytes as fuel; a round of the encoder takes
--   a byte at least and one of the decoder three, and the decoder's `stuck`, for no fuel, does not occur.
--   Format is the block format as a data type.
-- - Shared.Address: peer addresses; the resolver is a parameter of `normalize_peer_address`.
-- - Shared.Rdt: rdt_core.py. Action is the monad of sends, progress reports and exceptions. Sender is
--   `reliable_send` and Receiver is `reliable_recv` with `_linger_after_fin`. One turn is one round of a
--   loop, with one `recvfrom`; the clock, the cancel event and what arrives are the turn's input. The inner
--   loops on packets have the room in the window, or the packets left, as fuel. Network runs one sender and
--   one receiver in any order of turns over a pool of the datagrams sent: what arrives may be lost, late,
--   repeated or reordered, of another address, or so damaged that its checksum fails. Honest, FromReceiver,
--   ReceiverTurn, FromSender and SenderTurn prove the invariant that Safety draws on. File access at the two
--   ends is outside: a transfer is from bytes to bytes.
--
-- Codec models the TYPE and MODE conversions of server/control/transfer_codec.py and of
-- client/control/data_transfer_service.py. UTF-8, zlib and the line separator are the fields of Platform, one
-- for each side.
--
-- Server models server/.
-- - Server.Reply: control/ftp_codes.py and control/command_result.py, with the text of a reply.
-- - Server.Session: the ClientSession of control/session.py, with the sockets that each operation closes.
--   Cleanup is about `cleanup`.
-- - Server.System: what the handlers call outside the program (file system, paths, sockets, `int`, the users'
--   file), as the fields of one record, as they are while one command runs.
-- - Server.Files: control/filesystem_service.py. A path is its list of names from the root.
-- - Server.Outcome: a handler's result, that is the session, the effects on the system and the replies. A transfer
--   carries the path that it reads or writes; other reads of files are no effects.
-- - Server.Handlers: the handlers under control/handlers/. Transfers end at the start of their worker. An
--   exception that no handler catches is an effect.
-- - Server.Dispatch: `handle_command` of control/command_handler.py. Gate is about what runs before login and
--   during a transfer, Login about PASS, Confined and Root about paths below the server's root.
-- - Server.DataChannel: control/data_channel.py. A handshake is a function of its turns, each with the cancel
--   event, the deadline and what `recvfrom` does, its OSError included; Attempts and Peer are about the address it
--   finds.
-- - Server.Worker: what the thread of `run_transfer` does to the session, up to its final reply.
-- - Server.Job: `receive_file` of control/data_transfer_service.py from the received bytes on, with what the file
--   system does for it, and the final replies.
-- - Server.Loop: `handle_client` of main_server.py. The bytes of each `recv`, the success of each `sendall`, the
--   system at each command and the steps of the worker before it are given by number. The worker moves only
--   between commands. Chunks and Commands are about the bytes and the commands in them, Confined and Entered about
--   paths, Ending about the end of a connection.
--
-- Control is shared by the two ends of the control connection. Lines has `bytes.partition` at a CRLF, the string
-- methods, and UTF-8, as a parameter with its laws. Drain is the loop that takes lines out of a buffer, with the
-- number of bytes as fuel, since each line takes two at least.
--
-- Client models client/.
-- - Client.Connection: control/client_control.py on the bytes. A block is read with fuel, one for each line of
--   it. Reading and Blocks are about replies that the server has formatted.
-- - Client.Context: control/context.py.
-- - Client.Control: the connection as its handlers see it, in whole reply lines that are given beforehand; a read
--   beyond them raises, as on a connection that was closed. A block of HELP counts as one reply.
-- - Client.Handlers: the handlers under control/handlers/. Patterns are the regular expressions, Channel the
--   handshakes of the data socket, Worker what a transfer's thread does once its data transfer has ended, for
--   every way in which that can end.
-- - Client.Dispatch: `handle_command` of control/command_handler.py; InStep is about commands and their
--   replies: Single for commands of one reply, Transfers, Command for all of them and ABOR, Ending for the worker.
-- - Client.Main: main_client.py; workers end between the user's commands.
--
-- Protocol has the two sides together: Delivery is a file's way from disk to disk, Ending the end of a transfer, with
-- or without ABOR, and Passive PASV.
--
-- Not modelled: the listening socket of the server and its start of threads; a worker that moves while a
-- command is handled; OSErrors of `bind` and `sendto` in handshakes and of the client's `mkdir` for its
-- downloads; the ValueError with which `resolve` refuses a path that holds a NUL; printing, the
-- progress bar and the comparison of hashes that is only shown; and the program's own tests.
--
-- Tests holds runs of the definitions and the theorems at concrete inputs.
pub mod Base
pub mod Shared
pub mod Server
pub mod Codec
pub mod Control
pub mod Client
pub mod Protocol
mod Tests
