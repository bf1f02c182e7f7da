-- ===== src/Lib.antt =====
-- usbfluxd, the daemon that makes iOS devices of other hosts appear on the local machine: it takes the
-- place of the socket of usbmuxd, serves the usbmuxd protocol on it to clients, and forwards to the
-- local usbmuxd or to an usbmuxd on another host (a remote, an instance). A client is accepted, asks
-- for something, and is answered from the state of the daemon or through a remote that is opened for
-- it; a connected client and its remote copy bytes to each other. A remote with the flag is_listener
-- tells of devices, which are kept in a list and passed on to the clients that listen.
--
-- Files and code (paths from the repository's root, in usbfluxd/ unless another is named):
--   Utils/Collection: struct collection of utils.c, and FOREACH of utils.h. NULL in a slot is none.
--   Utils/FdList: struct fdlist of utils.c. Utils/Strings, Utils/Files and Utils/Clock: string_concat,
--     the file helpers, and mstime64. Utils/Memory: the memory that a file is read into.
--   Proto, Text, DeviceId: usbmuxd-proto.h, C strings, and the ids and keys of devices as they are
--     computed in usbmux_remote.c. Bytes and numbers are the native numbers, with the wrap-around of
--     uint32_t, uint16_t and uint8_t written out; fields are little-endian.
--   Buffer: ob_buf, ob_size, ob_capacity, and the same for ib, of both structs.
--   System: libplist as the parameter LibPlist, poll flags, and the outcomes of system calls as the
--     parameter Env.
--   World, World/Monad: struct mux_client, struct remote_mux, the static variables of client.c and
--     usbmux_remote.c, memory and locks.
--   Client and its children: client.c. Client/Process is process_send, process_recv and
--     client_process; Client/Command is client_command and Client/Lists the lists that it sends;
--     Client/Output is send_pkt and the functions on it; Client/Poll is client_get_fds and
--     client_shutdown; Client/Notify, Client/Accept, Client/Close, Client/Events and Client/Info are
--     the functions that their comments name.
--   Remote and its children: usbmux_remote.c. Remote/IdMap is remote_id_map; Remote/Connect,
--     Remote/Service, Remote/Mdns, Remote/Output, Remote/Poll, Remote/Result, Remote/Process,
--     Remote/Dispose and Remote/Close are the functions that their comments name; Remote/Connect is also
--     used by Client/Command.
--   Address: the argument HOST[:PORT], which main.c and tools/usbfluxctl.c split in the same way.
--   Socket: socket.c.
--   Log: log.c.
--   Main/Options, Main/Start, Main/Daemon: parse_opts, main, and daemonize with notify_parent of main.c;
--     Main/Loop: main_loop, and the calls of main into client.c and usbmux_remote.c.
--   Ctl, Ctl/Tool: tools/usbfluxctl.c. Ctl/Tool/Answers joins it to what client.c sends.
--   Relay: runs of the main loop with new clients, requests to connect, their answers, new
--     instances and the events of connected clients and remotes, and what holds of the state between
--     two events; it joins client.c, usbmux_remote.c and main.c.
--   Tests: a small property list library, and runs on small states.
--
-- How the code is read. A handler is a function from the state to a result and a new state, or to a
-- fault: a use of freed memory, an access through NULL or outside a block, or a lock of a mutex that
-- is held. The state is that of one thread between two calls of poll. A negative result is none; a
-- length that is returned as an int is negative from 2 ^ 31 on, and where it is the int argument of
-- send_pkt, memcpy then writes outside the buffer. Memory that malloc returns is new, and reads as 0;
-- malloc itself does not fail, realloc may. Utils/Memory, which only the reading of files works on, has
-- a malloc that may fail, and blocks that hold what was there before. Descriptors that are closed are
-- recorded. A run of one handler makes at most one call of recv, of send and of connect, so that Env
-- holds one outcome of each; how much recv returns is limited by what the code asks for. A node of
-- libplist is a value: a change through a pointer into a node is a change of the node. A loop over a
-- dictionary runs over the items that it has at its start. The setting of a socket to non-blocking is
-- part of the outcome of the connection. The other components leave log output out, though not a read
-- through the pointer to a remote for it, and also the fields last_tag and last_command of a client,
-- which nothing reads.
--
-- Bounds: a loop over an array is a recursion on the number of rounds, which is the capacity, so that
-- no round is missing; the search for an id makes the 255 rounds of the source; ten digits are enough
-- for the numbers of 32 bits that are printed. No other recursion needs a bound.
--
-- The rounds of main_loop and the calls of recv of the tool are lists, one element for a round or a
-- call, and a list that is used up is a result of its own. Main/Start is a run on the two socket files
-- of usbmuxd, with what the main loop returns as an outcome; Main/Loop is a run on the clients and
-- remotes, which is why the two are separate. Main/Daemon is a run of one process; what a process reads
-- from the pipe is an input, which the theorem sets to what the other one wrote.
--
-- Not modelled: signals and limits of main.c (calls of the system), the mDNS thread of usbmux_remote.c
-- as it is built with CFNetwork, the threads that check idle remotes (what is handed to them is a list
-- in the result of usbmux_remote_get_fds), and the application in USBFlux/.
pub mod Prelude
pub mod Text
pub mod Proto
pub mod DeviceId
pub mod Address
pub mod Buffer
pub mod Utils
pub mod System
pub mod World
pub mod Client
pub mod Remote
pub mod Socket
pub mod Main
pub mod Log
pub mod Ctl
pub mod Relay
pub mod Tests
