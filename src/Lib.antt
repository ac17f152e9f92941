-- ===== src/Lib.antt =====
-- p2p_watcher is a server and a desktop client that exchange packets over TCP and UDP: the client
-- sends structs, messages and screenshots, and the server greets its clients and relays images to
-- them.
--
-- The parts and their files. Server/include/GroupData.h has the payloads and their encodings:
-- Protocol/Wire (numbers as bytes, htonl), Protocol/Reader (the memcpy idiom) and
-- Protocol/GroupData. Server/include/ClientSession.h has the packet: Protocol/Packet, where `parse`
-- is what every processPacket starts with. The loop of AsioUdpManager::broadCast, which cuts a
-- payload into datagrams, is Protocol/Sender, and the assembly of an image in processPacket is
-- Protocol/Assembly. Server/source/AsioUdpServer.cpp is Server/Udp, Server/source/ClientSession.cpp
-- is Server/Session, Server/source/AsioTcpServer.cpp is Server/Tcp, Server/include/Logger.h is
-- Server/Logger, the Creators and Server/source/main.cpp are Server/Main, and Server/source/crc.cpp
-- is Server/Crc. Of the client, Client/include/GroupData.h and the packet of
-- Client/include/connection.h, which are copies, are Client/Headers; Client/source/connection.cpp
-- is Client/Udp and Client/Tcp, Client/source/mainclient.cpp is Client/Main, and
-- Client/source/main.cpp is Client/Main/Events.
--
-- The proofs stand below the definitions: Protocol/Sender/Chunks, Datagrams and Single on what is
-- sent, Protocol/Packet/Layout and RoundTrip on the packet, Protocol/Assembly/Images on the
-- assembly in order, Order (with Copies and Swap) in another order, Loss with losses and mixtures,
-- and Truncation and Cutting behind a receive buffer. Protocol/Receiving is the interface of a
-- program that takes images from its UDP socket, with the images that it takes in Whole and those
-- that it cannot take in Overruns; Server/Udp/Images and Client/Udp/Receiving implement it.
-- Server/Session/Framing and Ending are on the stream of frames, Server/Udp/Relay, Messages, Faults
-- and Overruns on the relay, Server/Tcp/Clients, Inside, Entering and Refinement on the tables of
-- the clients, with the abstract view in Room, Server/Tcp/Visit and Remaining on a connection from
-- its frames to the tables, Server/Main/Startup and Images on a run of the server,
-- Server/Crc/Linear, Modes, Shipped and Detection on the CRC, Client/Main/Buffer, Images and Exit
-- on a run of the client, and Client/Main/Delivery and System on the way of a screenshot from one
-- client over the server to another. Base/Xor has the laws of the exclusive or that the CRC takes.
--
-- State and operations. A class is a record of its members, and a method a function on it under its
-- name in snake case, with _udp or _tcp behind it where both managers have it. A handler that is
-- given to boost::asio is a function of what the operation completed with (on_accept, on_size,
-- on_body, on_written, on_sent, on_timer, receive_datagram, on_resolved, on_connected), and a
-- Boolean or a phase of the state says that the operation is pending. Server/Tcp/Events runs any
-- sequence of completions, and Client/Main/Events any sequence of clicks and completions; every
-- handler is one step. Sessions tell the manager what happened by a list of signals that the
-- manager follows in order. What is sent is appended to a list of datagrams or bytes. An Outcome
-- (Base/Results) is a result, an exception, or undefined behaviour such as a read outside an
-- allocation.
--
-- Parameters. Network has what the programs use of boost::asio: the record Asio of operations, and
-- IsAsio, the documented behaviour that the code relies on; Network/Loopback meets both. The byte
-- order of the host is a parameter throughout. Client/Screen has what the window uses of
-- CoreGraphics and Qt, and IsScreen what it relies on there. The lines of the table file are a
-- parameter of the CRC; Server/Crc/Dat is crc.dat as the repository has it.
--
-- Bounds. An int or a double is its bit pattern, and the unsigned types wrap around where the
-- source's do (u8, u16, u32). Loops are by recursion on their data or on the number of rounds that
-- are left, so there is no fuel; a session and the connection of a client are run for a number of
-- reads, which the theorems give. The images of the theorems have at most 65535 * 1472 bytes, since
-- the number of a packet is a u16, and the payloads that are cut at most 2 ^ 31 - 1, since the
-- index of the loop is an int.
--
-- Not modelled: the widgets of the window and its form, the mutex of the log, the copy of
-- QCustomPlot, which nothing uses, and the Python script that made crc.dat. Two threads of the
-- client are one sequence of handlers, so a data race between them does not show. The order of an
-- unordered_map is that of an association list. The time between a call and its completion is not
-- modelled, so neither is the lifetime of the buffers that asynchronous writes are given. The
-- theorems of Protocol/Assembly/Images, Order and Loss and of Server/Udp/Relay take each packet as
-- it was sent; those of Protocol/Receiving, Server/Udp/Images, Messages and Overruns,
-- Server/Main/Images and Client/Main/Images, Delivery and System take it through the receive
-- buffer.
pub mod Base
pub mod Console
pub mod Network
pub mod Protocol
pub mod Server
pub mod Client
pub mod Tests
