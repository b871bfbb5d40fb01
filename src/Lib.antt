-- ===== src/Lib.antt =====
-- Verification of the luagent server: a TCP server that speaks a framed protocol with one client per
-- session, moves files, runs processes and hands operations to Lua.
--
-- Parts, with the files of the repository that they model:
--   Frame        src/frame.h, src/frame.c: frame types, the header, its 14 bytes
--   Libc         the functions of the C library on text that the server calls
--   Kv           kv_value, kv_copy and the numbers of src/transfer.c and src/proc.c
--   Machine      the structs of src/session.h, src/transfer.h, src/proc.h and src/diag.h, the
--                operating system as a parameter, actions on the state of a session
--   Diag         the counters of src/diag.c, Tables its tables for Lua,
--                Levels the names of its levels, Log its log, the files of that and the wire dump
--   Session      src/session.c: sending, completed writes, session_close, Start its start,
--                Release its references
--   Transfer     src/transfer.c: Upload is PUT_BEGIN, PUT_CHUNK and PUT_END, Download is GET_BEGIN
--   Proc         src/proc.c: the child process, Args and Vector its arguments, Spawn its start
--   Heartbeat    heartbeat_cb of src/session.c
--   Portfwd      src/portfwd.c: Forward is one connection, Engine the list of relays, Open the
--                opening of a relay and the clients that come to it
--   Protocol     src/protocol.c and lua_engine_dispatch of src/lua_engine.c
--   Bindings     src/bindings.c: the functions that scripts call, Ports those on relays, Scripts
--                a script as a sequence of them
--   Server       read_cb of src/server.c, Accept is on_new_connection
--   Main         src/main.c, server_run of src/server.c, the start and end of src/lua_engine.c
--   Shell        hello.c, a serial shell for Windows of its own: Commands its commands and loop, Pipe
--                the output of a program
--   Client       tests/host_client/client.c, a client that uploads a file
--   Base         lists, options, integers and tests on the native numbers
--   Invariant    what an invariant of a session must show to hold over its whole life
--   Tests        a session and an operating system for the examples
--
-- How they interact: libuv calls read_cb with bytes of the client. It adds them to the buffer of the
-- session, cuts complete frames from it and gives each to protocol_handle_control, which calls the
-- handler of its type; handlers answer through session_send_frame. The timer calls heartbeat_cb,
-- which closes idle sessions, sends PING and looks for timeouts of transfers and of the process.
-- Server.Run is the sequence of these callbacks; libuv runs one at a time.
--
-- The state is that of one session, with the global counters. A function of the source is the
-- definition of the same name; one that is long is cut into definitions that stand for the rest of
-- the function from some point on. An action takes the state and gives a result and the next state.
-- Every call of libc and libuv is an event on a trace, and the operating system answers it by any
-- function of the calls before, so that what is shown holds whatever it answers; where the answer
-- must be sensible, that is a hypothesis (Transfer.Stored.StoresBelowLimit,
-- Transfer.Bounded.ReadsAtMost). Lua is a parameter too (Protocol.Lua): what a protected call does to
-- the session is any action, and the invariants take it as a hypothesis that it keeps them. A script
-- that calls the bindings is such an action (Bindings.Scripts), and needs no hypothesis. Scripts end
-- after finitely many calls; Lua keeps its memory, so that each callback may find other scripts. A call
-- on relays has any answer there, and of what it does only the counters are in the session's state.
--
-- The relays of src/portfwd.c point at one another, so they stand on a heap of their own: a struct is
-- a cell at an address, commands read and write cells, and the use of a freed cell is a fault.
-- Addresses are not used again, so that every use of a dangling pointer is a fault. A session is a
-- number there. libuv calls the callbacks in any order (Portfwd.Events.run_events); it may finish any
-- write that it holds. Session.Release puts the two states together: the last reference of a session
-- closes its relays.
--
-- The log (Diag.Log) has its files as a function from names to bytes; whether a file can be opened
-- or renamed is a parameter, and what the theorems need of it a hypothesis (RenamesAll, OpensAll,
-- Refuses). Logging changes no session, so that the handlers do not call it in the model. The serial
-- shell shares no state with the server. Its input is what each ReadFile gives; Windows answers by any
-- function of the calls before (Shell.Commands.Windows).
--
-- The client has the answers of its sockets as functions of the bytes before (Client.Network), and the
-- file as the reads of it; it shares with the server the bytes of the frames.
--
-- Integers are those of C: 64-bit sums are taken modulo 2 ^ 64 and casts modulo 2 ^ 32. Sizes of
-- objects in memory, of type size_t, are taken to be small enough not to wrap, but for the pending
-- bytes of src/portfwd.c, which are 64-bit sums.
--
-- Fuel: the loop over frames has the length of the buffer, since a round uses 14 bytes or more; the
-- loop of kv_value has one more than the length of the payload; the loop of a download has one more
-- than the size of the file; the digits of a number are 20, enough below 2 ^ 64. Counting the
-- arguments of a process has the length of the payload and one: an argument is a line of its own. The
-- walks over the relays take a bound on their number as a parameter; the theorems on them say that a
-- bound above the length of the list is enough. The loop of the serial shell has one more than the
-- bytes of its input.
--
-- Not modelled: the calls of diag_log and of the wire dump from the handlers, with the texts that
-- they pass; what Lua does with lua/bootstrap.lua; copies of bytes that are released; the state of
-- relays together with a session that a script acts on; in hello.c the settings of the serial
-- port, and how the thread that copies the output of a program and the shell take turns; the other
-- clients, in Python, and the tests.
pub mod Base
pub mod Frame
pub mod Libc
pub mod Kv
pub mod Machine
pub mod Diag
pub mod Session
pub mod Transfer
pub mod Proc
pub mod Portfwd
pub mod Bindings
pub mod Client
pub mod Invariant
pub mod Heartbeat
pub mod Protocol
pub mod Server
pub mod Main
pub mod Shell
pub mod Tests
