-- ===== src/Lib.antt =====
-- The programs of Rechnernetze.
--
-- aufg4 is a file transfer over UDP. The client (aufg4/bft_client) sends SYN with the file's name, the
-- content in blocks of up to 504 bytes, and FIN, each datagram until it is acknowledged. The server
-- (aufg4/bft_server) keeps one upload at a time and writes the payloads to a file. Both use the
-- datagrams of aufg4/bft_base. A bit of the flag word, SQN, alternates, so that copies of a datagram
-- are told from the next one.
--
-- Base holds the shared names: tests and lists over the native numbers, the laws of the bit
-- operations, signed numbers, numbers as texts. Process is the system. Bft models aufg4:
--   Process          how a run can end, and the system and the CRC library as the programs see them
--   Bft.Flags        bft_base/flags.hpp and flags.cpp: operator|, operator&, operator^, clear_flag,
--                    flags_to_str
--   Bft.Datagram     bft_base/bft_datagram.hpp and bft_datagram.cpp: of_flags, of_range and of_string are
--                    the constructors; receive and send go through the image of the object in memory
--   Bft.Files        std::filesystem, as the server uses it: a map from paths to contents
--   Bft.FileWriter   bft_server/file_writer.hpp and file_writer.cpp, with the readings of the clock as a
--                    sequence
--   Bft.Server       bft_server/main.cpp: dispatch is the body of the loop behind receive, on_corrupt,
--                    on_syn, on_abr, on_other and on_regular are its branches, run is the loop over the
--                    outcomes of recvfrom
--   Bft.Client       bft_client/main.cpp: exchange is send_and_receive_response, send_and_wait is
--                    send_datagram_and_wait_for_ACK, upload is main behind the options
--   Bft.Client.Start main of the client with its options: prepare is main up to the first datagram
--   Bft.Server.Start main of the server up to its loop, with init_socket
--   Bft.ClientOptions, Bft.ServerOptions
--                    options.hpp of bft_client and of bft_server, over what the option parser gives
--   Bft.Logger       bft_base/logger.hpp
--   Bft.Transfer     the two together, with the client's datagrams as a sequence that arrives
--   Bft.Network      the two together, as a step relation on what client, network and server do: each
--                    move of the server is a step of its loop, each turn of the client an answer that
--                    judge takes for an acknowledgement; it is about the blocks, between SYN and FIN
--   Bft.Session      the two together, for a SYN or a FIN that is sent again
--   Bft.Samples      stand-ins for the tests
--
-- aufg2_3_http holds an HTTP server (http_server) and a client (snatch), which share connection_base.
-- Http models connection_base/src, http_server/src and snatch/src:
--   Http.Response    HttpResponse.hpp and HttpResponse.cpp: of_data is the parsing constructor
--   Http.Request     HttpRequest.h and HttpRequest.cpp: of_text is the constructor, with the regular
--                    expressions as functions
--   Http.Connection  connection.hpp and connection.cpp: send, send_response, send_range and send_slow are
--                    the overloads of send and send_slow; a connection is the list of what was handed to
--                    ::send, receiving takes the outcomes of recv in advance
--   Http.Address     address.hpp and address.cpp: of_host and of_sockaddr are the constructors, destroy
--                    the destructor, over the blocks that the process has allocated
--   Http.Logger      logger.hpp: log_internal is what is written behind the lock, and the steps of threads
--                    that take the lock, write and release it are a relation
--   Http.Listener    connection_listener.hpp and connection_listener.cpp, with the constructor (connect)
--                    and the destructor (disconnect) of connection.cpp, over memory and descriptors
--   Http.Factory     response_factory.h and response_factory.cpp, over the files as the system sees them
--   Http.Handler     main.cpp: handle_incoming_request up to the answer
--   Http.Threads     main.cpp: the list of handler threads, its lock, and the shutdown, as a step relation
--   Http.Startup     main.cpp up to the listener
--   Http.Sizes       helper.cpp: file_size_to_str
--   Http.ServerOptions, Http.SnatchOptions
--                    options.hpp of http_server and of snatch
--   Http.Snatch      snatch/src/http_request_builder.cpp, and build_request and send_request of its main.cpp
--   Http.Snatch.Url  url_info.cpp, with its regular expressions as functions
--   Http.Snatch.Fetch
--                    the rest of snatch's main.cpp, and write_to_file of HttpResponse.cpp
--   Http.Exchange    the two programs together: one request in one piece, and its response in two
-- Cli is the library of options (cxxopts) as the programs call it.
--
-- A run that does not go on is a value of Stop: exit with its code, an exception, the end of the given
-- events, or a fault for which C++ defines no behaviour (a read or write past an array, a null pointer,
-- a division by zero, a free of memory that is not allocated, a read of an indeterminate value, an
-- overflow of an int).
-- What aufg4 sends is kept in the state, newest first.
--
-- The integers of C++ keep their wrap-around: the flags at 16 bits, the checksum and the counters of
-- duplicates and retransmissions at 32, the count of written bytes at 64. The int of a range, of the index of
-- a response and of send_slow is one that can overflow, and the size of a file is rounded to a double. The memory image is that of a
-- little-endian machine with a packed class, which the static_assert of bft_datagram.hpp asks for.
--
-- Loops: the client's loops take the outcomes of their rounds in advance; the outer one has fuel, one
-- more than there are rounds, since each of its passes uses up a round. The blocks of a file have its
-- length as fuel, since each block takes at least a byte. A number is written with one more than itself as fuel,
-- and send_slow has one pass more than the message has bytes.
--
-- Not modelled: what is printed before an exit and with the option verbose; directories among the files
-- of aufg4's server and failing writes to an open file; a send that fails at that server, which it only
-- logs; a retransmission timeout or a retry limit outside the range of an int. A failing recvfrom sets
-- errno, and nothing else does while the client waits. The CRC library (a copy of CRC++) is a parameter
-- with a 32-bit result; cxxopts is a parameter that gives the values of the options, and no file of
-- the programs includes the date library. In Bft.Network the packets keep their order: with a sequence
-- number of one bit, a copy of a datagram that the next datagram overtakes is taken for a new one.
-- Of aufg2_3_http: ::send is taken to send all of its bytes; helper::read_file, the text of a time and
-- that of a double are parameters. The calls of the log are left out of the handlers. The scripts of aufg4/bftp_experiment are Python, and measure.
pub mod Base
pub mod Process
pub mod Cli
pub mod Bft
pub mod Http
