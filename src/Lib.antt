-- ===== src/Lib.antt =====
-- Verification of the network-programming lab programs. Each lab directory holds a few small C
-- programs that run as processes of one exercise and talk over signals, message queues, pipes,
-- sockets and raw packets. The modules below take the exercises one by one; paths are from the
-- repository's root.
--
-- Base: names that the components share. Base.Words has C's fixed-width integers as bit patterns
-- on the natural numbers and htons on a little-endian machine with a 32-bit int; Base.Int has
-- signed integers; Base.Bits has the laws of & that a mask of one bit needs; Base.Memory has a
-- byte-addressed buffer as a function from addresses to bytes, whose untouched bytes keep an
-- arbitrary old value; Base.Decimal has what sprintf's %d writes and atoi reads.
--
-- Checksum: in_cksum of endlab/rpc.h and csum of 15-3-22_RAW/ip_spoofing/s.c over the list of the
-- bytes of a buffer. Fold has the carry arithmetic, Field a checksum stored inside the buffer
-- that it covers, and Spoof the packet that send_packet of that s.c builds, with its array of
-- 1024 bytes cleared at the start.
--
-- Rpc: endlab/client.c, client_stub.c, server_stub.c, server.c and rpc.h. Rpc has the structs,
-- Wire the frames byte by byte (send_pcap_packet is client_frame and server_frame, extract_rpc is
-- client_extract and server_extract), Net one function for each half of a process's loop over the
-- two message queues and the captured frames, Call the composition of one call, in which each
-- process moves as soon as it can and the client stub's read timeout passes or not. A message
-- queue is a list, and a step that would block returns none. strcpy out of a frame reads at most
-- the ten bytes of the field; the stubs' frames hold a NUL among them. Set-up, printing and exits
-- on failing system calls are not modelled.
--
-- Cricket: 15-3-22_RAW/cricket. Cricket has findClosestFielder, the fielders' loop and the
-- umpire's round; Scoring the umpire's loop over a whole innings, with none for a write past
-- batsman_score; Ball the shared file of bowl.c and bat.c; Match one delivery through all
-- processes. The numbers that rand gives are arguments, and a batsman who does not signal makes
-- the umpire time out.
--
-- Inet: 10-2-22/inet_d/inet.c, one round of its loop, on top of Passing. A process that waits at
-- a listening socket is named by the open file of its connection, and none is an accept that
-- blocks.
--
-- Judge: compareTestCase of 28-1-22/S.c, with buffers of 1024 bytes that keep what a shorter read
-- leaves in them; none is a strcmp that leaves them. One round of the loop more than the expected
-- output has bytes is enough.
--
-- Passing: send_fd and recv_fd of minor1/Q2-ESS, of which other directories hold copies. A
-- process's descriptors are a list of open files; a stream is a list of what was sent, with the
-- files that travel along; sendmsg and recvmsg of the kernel are written out as far as the two
-- functions use them. Handover has what arrives.
--
-- DataServer: 4-2-22/DS.c. DataServer has the tables and the two branches of the loop over what
-- poll reports; none is a write past a table. Clients has which clients hear a data server, Rooms
-- how many clients the tables have room for.
--
-- Exclusive: C.c and first_client.c of minor1/Q2-ESS, for any number of clients. Exclusive has a
-- step relation with one constructor for each call of a client. Token has the role of each client
-- and what it means for its state, Keep, Call and Pass that every move keeps the roles or passes
-- them on, Turns the abstract first-in first-out service and the order in which the clients enter
-- the message queue, Simulation that every move is a move of that service or none, Fair what
-- follows for all runs. The server answers every client, and system calls other than connect do
-- not fail. A process id is used by one client.
--
-- Pizza: 4-3-22/pizza. Pizza has a step relation with one constructor for each call of the boss,
-- of a waiter and of the delivery boy; `may` restricts the waiters that rand gives. Lines has the
-- line of customers from the boss to the delivery, Texts and Parcels the parcels when one waiter
-- does all the work, Sleep the boss's pause() and the signals; Samples has a run in which two
-- customers get each other's parcel. The connections exist when the model starts, nobody closes
-- one, and what one send writes is what one recv reads.
--
-- Files: the tools of directory 1. Capital is 1/2/capital.c and Separate 1/3/separate.c, with a
-- write behind the end of the file padding it by zero bytes and at most 1000 rounds for the
-- spaces. Files itself is 1/1/sort.c. readint works on the list of the bytes that are still to be
-- read; a write past one of the ten-byte buffers is overrun or none. The loop of main takes fuel,
-- and one round more than there are numbers is enough. Files has the code, Merge what it does
-- with files of printed numbers. The variable c of readint is not initialised, so what it holds
-- at the call is an argument.
--
-- Ring: 12-1-22/circular_signal. The main functions of p1.c to p4.c are lists of their calls,
-- with the three-fold loops written out; Ring.Signals has the two handlers, kill, msgrcv and one
-- move for a call or a handler. A process knows the next process's id from a message and the
-- previous one's from the first signal; 0 stands for an id it does not have. A standard signal
-- that is pending already is not added. In a patient ring no handler runs between the call before
-- a pause() and the sleep in it. Ring.States lists what the runs reach, found by a search with
-- fuel 5000, for the ring and the patient ring, and checked to be closed; Rounds has what holds
-- of every run. Printing, the removal of the queue and failing system calls are not modelled, and
-- all processes have installed their handlers at the start. Base.Explore has runs, the search and
-- the induction on runs.
--
-- Group: 12-1-22/group_signal, in the style of Ring, with calls that a handler interrupts: pause
-- returns, msgrcv fails, scanf gives up. A message for a sleeping msgrcv is handed over before a
-- signal can interrupt it. setpgid succeeds for the caller only, as the four programs are not
-- each other's children. States lists what is reached until p1.c tells the group's id, found by a
-- search with fuel 8000; Runs has what holds until then. What follows is not searched.
--
-- Semaphore: practice/semaphore_sharedmem/class_example. One function for each of p1.c and p2.c
-- gives the process's next move, where strcpy, strcat, semop and semctl are one move each; a run
-- is any interleaving. Both have initialised the memory and the semaphores when the model starts,
-- as the sleep of three seconds is to ensure. States lists what the runs reach, found by a search
-- with fuel 2000 for 106 states and checked to be closed; Turns has what holds of every run. The
-- sleeps inside the loops, shmdt and the removal of the memory are not modelled.
--
-- Server: minor1/Q3-AIO/S.c. Server has the signal handler, the broadcast and one round of the
-- loop of main over what poll reports; a round takes the number of signals that come while poll
-- blocks, and what accept and read give, as arguments. none is a write past nsfds. Arrival has
-- what each step keeps, Queue whole runs. The set-up of the five descriptors, the fork and
-- failing sends are not modelled, and poll is taken to report the ready descriptors also when a
-- signal came.
--
-- Toll: midlab/toll_gate. Toll has the ports, the toll manager's counters, the FastTag verdict
-- and the gate's inner loop over raw packets, which returns none while it still waits, and for a
-- vehicle number that leaves no room for its NUL in the 10 bytes of the programs' buffers; Gate
-- has the theorems on the wait for a verdict, Plaza a vehicle's way through gate, manager and
-- server. The kernel's IP headers are arguments. Signals of several gates that merge before the
-- toll manager handles them are left out.
--
-- Driver: practice/device_driver/cel_far and 21-1-22/my/ticktock.c. CelFar has the device's
-- globals and file operations, with none for an access outside the kernel buffer, and
-- CelFar.Session a round of the user program; TickTock the clock device, whose reverse loop runs
-- on fuel equal to the length. Their ints wrap around at 32 bits, as the kernel is built, and
-- none is also a write past the clock's 30 bytes.
--
-- Hamming: gen.cpp and check.cpp of 12-2-22/HammingCode. A string is its length and the byte at
-- each index, and a loop over i is a function of the number of rounds made. The loop of
-- hammingLength runs on fuel one above the length of the text, which Hamming.Length shows to be
-- enough; pow gives exact values there.
--
-- Proxy: user.c, proxy.c and corn.c of manoj_cn_end_lab_practice/cn_end_lab_practice/packets
-- libpcap/proxy_server. A packet is a buffer and its length; proxy_packets gives the packet that
-- proxy.c injects, if any, and corn_packets what corn.c prints. Print has PrintData, Relay the
-- way of a packet, Checksums the header that proxy.c changes. The capture loop of libpcap is left
-- out.
--
-- Observer: obs.c of the directory packets libpcap/observer beside it, over the same packets;
-- Talk has what it prints of the two directions of a conversation, for frames written as lists of
-- bytes.
--
-- Mailbox: p1.c to p4.c of 11-1-22/message queue. Step has the calls of the server p1.c and of
-- the three clients on their message queue, in any order, and Run counts them. Texts has what the
-- messages say, Queue what msgrcv takes, Invariant what holds between the calls, Steps that every
-- call keeps it, Weight how many calls are left and Replies what the clients print. The ids of
-- the clients are an argument.
--
-- Counters: p1.c and p2.c of 12-1-22/q4, with the move of each program as a function of its place
-- and the shared ints; States has the reachable states, found by a search whose fuel of 1000 is
-- more than it uses, and Ends how runs end. The clean-up behind the loops is left out.
--
-- Stage: the programs of 4-3-22/online_stage_show. Each loop and handler is a function from the
-- lines that a program is given to the texts that it sends or prints, show composes them to one
-- performance, and Run has what is printed of it. rand() is an argument; the loops end with their
-- input.
--
-- Poll: p1.c of 11-1-22/poll, which reads three pipes, with its rounds and what the writers p2.c,
-- p3.c and p4.c do between them as events; Pipes and Ends have the theorems. What is written
-- while p1.c is inside a round counts as written behind it.
--
-- Not modelled: the exercises that copy bytes between sockets, pipes and queues or print header
-- fields, the ARP tools and course examples that are adapted from elsewhere, code that rpcgen
-- generates, and the C++ versions of the exercises. 22-3-22_RAW/ESS may follow. Everywhere the
-- calls of the operating system are taken to succeed, unless a module says otherwise.
pub mod Base
pub mod Checksum
pub mod Proxy
pub mod Observer
pub mod Rpc
pub mod Counters
pub mod Cricket
pub mod DataServer
pub mod Exclusive
pub mod Files
pub mod Group
pub mod Hamming
pub mod Inet
pub mod Judge
pub mod Mailbox
pub mod Passing
pub mod Pizza
pub mod Poll
pub mod Ring
pub mod Semaphore
pub mod Server
pub mod Stage
pub mod Toll
pub mod Driver
