-- ===== src/Lib.antt =====
-- Models of three C++ programs and a C program of this repository, and theorems about them. Paths are
-- from the repository's root.
--
-- Rdt is the reliable transport library of "IReliable Data Transport - p04", which sends a byte stream
-- over UDP by stop-and-wait with alternating sequence numbers, and the two programs that use it.
--   Rdt/Segment: RDTSegment.h and RDTSegment.cpp, the header of six bytes and the payload behind it.
--     The padding byte that the compiler leaves in the header is a parameter.
--   Rdt/Clock: rdt_time.cpp, the conversions between milliseconds and a timeval.
--   Rdt/State: the fields of UnreliableSocket.h and ReliableSocket.h, what the operating system is
--     asked to do, and what a call can end in.
--   Rdt/Unreliable: UnreliableSocket.cpp, the UDP socket with its timeout (receive, send, bind).
--   Rdt/Reliable: ReliableSocket.cpp's constructor, update_rtt and send_ack.
--   Rdt/Sender: connect_to_remote, send_until_acked and send_data.
--   Rdt/Receiver: accept_connection and receive_data. Rdt/Closing: close_connection.
--   Rdt/Acks, Rdt/Heard: which actions are ACKs, and which answers complete a wait, for the proofs.
--   Rdt/Apps: sender.cpp and receiver.cpp: the loops that send and write a file, and the programs from
--     their command lines on (Rdt/Apps/Programs), where the sender reads its file as a stream with
--     flags. Rdt/Apps/Reads relates that loop to the blocks of a file that was opened.
--   Rdt/Link: the two sides after the handshake and the two channels between them, as a step relation
--     whose steps run the rounds of the sender and the receiver. The channels keep the order of the
--     datagrams and may lose or repeat any. Rdt/Link/Refinement has the pipe that the link refines.
-- The theorems outside Rdt/Link are about one side and the answers of its recv.
--
-- Jukebox is the server of "Streaming Music Protocol - p05/server".
--   Jukebox/Protocol: protocol.h and protocol.cpp. Jukebox/SongLibrary: SongLibrary.cpp.
--   Jukebox/State: the fields of ChunkedDataSender.h and ConnectedClient.h, and the system's calls.
--   Jukebox/Chunked: ChunkedDataSender.cpp. Jukebox/Client: ConnectedClient.cpp.
--   Jukebox/Networking: networking.cpp's calls, by whether they succeed.
--   Jukebox/Server: music-server.cpp's main and event_loop, over the events that epoll reports, with the
--     command line in Jukebox/Server/CommandLine. The map holds each client as a State, with what the
--     system did for it.
-- A client's requests come from recv; its replies go through a sender that ConnectedClient keeps while
-- the socket takes no bytes, and that epoll wakes.
--
-- Torero is the web server of "ToreroServe (A Lean Web Server) - p02".
--   Torero/Buffer: BoundedBuffer.cpp, and the threads of torero-serve.cpp that share it.
--   Torero/Socket: ClientSocket.cpp's sendData, over the answers of send.
--   Torero/Request: parseRequest, with its regular expression as a list of items.
--   Torero/Serve: handleClient and consumeClients, and ClientSocket.cpp's receiveData. A client is what
--     its socket answers to recv and to each send.
--   Torero/Pages: torero-serve.cpp's responses, as the messages handed to ClientSocket::sendData, and
--     how a response ends: a call of the file system may throw, and the loop of sendFile has no end on
--     a file that cannot be opened.
--   Torero/Start: main.cpp, ServerSocket.cpp and the start of runServer.
--
-- Weather is the sensor client of "Reverse Engineering a Network Application - p01" (client.c and
-- io_helpers.c; the folder original_clients holds programs without source).
--   Weather/State: what the client does that can be seen, and the system's calls.
--   Weather/Scanning: the two formats that it hands to sscanf, with the sizes of its arrays.
--   Weather/Input: get_text_input and get_user_request, over the bytes of the standard input.
--   Weather/Client: the dialogues with the two servers, with the array that recv_line ends, and
--     main_loop; Weather/Client/Visits says what servers and a system that answer well are.
--
-- Base has what these share: tests and lists over native numbers, decimal text, signed integers, paths,
-- and Base/Text, which reads text as strtol, std::stoi, sscanf and the regular expression do.
--
-- The program's state is passed explicitly. A call returns `ok` with a value and a state, or `halt`
-- with the way in which it does not return: exit, an exception that nothing catches, an access that the
-- language leaves undefined, or a wait without end. Bytes are numbers; a fixed width is written out as
-- a remainder where the code relies on it. The operating system is a parameter (`Os`): whether a call
-- succeeds, what the clock shows and what a file holds. In Rdt the answers of recv are a list, and loops
-- recur on it: a loop that finds it empty is `blocked`. In Jukebox the answers of send are a function of
-- the number of the call, and send_loop has fuel: one more than the bytes left, since each turn but the
-- last sends one. receive_blocks, send_stream and chunks have fuel too: one more than the answers or the
-- bytes. In Torero the answers of send are a list, and the loop of sendFile has fuel: one more than the
-- bytes of the file. The matcher of the request line recurs on the line. In Weather the answers of recv are a
-- list, and main_loop has fuel: one more than the bytes of the standard input, of which each turn reads
-- one at least.
--
-- Not modelled: log messages and the vendored logging library; prompts, usage messages and perror; the
-- signal that a send on a broken connection raises; find_mp3_files, which nothing calls; the two examples
-- of p02; the Java client of p05 and the Python programs of p03 and p04.
mod Base
pub mod Rdt
pub mod Jukebox
pub mod Torero
pub mod Weather
