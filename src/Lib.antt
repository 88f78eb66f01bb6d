-- ===== src/Lib.antt =====
-- uintOS: the kernel's locks, message queues, scheduler, access control and user memory checks,
-- its network from buffers to TCP, its FAT12 file system, and the frames and regions of memory.
--
-- Parts. The locks of kernel/sync.c guard the message queues of kernel/ipc.c, which tasks use to
-- talk to each other, and each function of kernel/scheduler.c, which decides what task runs.
-- kernel/security.c decides what a task may do, and kernel/security_syscall.c checks the
-- pointers that a system call brings and copies between user and kernel memory.
-- network/src/tcp.c takes segments from IP, keeps the state of each connection and what it has
-- received in a circular buffer, and sends segments through IP. network/src/ip.c and ethernet.c
-- put their headers in front of what the buffers of network/src/network.c hold, and take them
-- off. filesystem/fat12.c reads files and the root directory of a disk that it keeps in memory.
-- memory/vmm.c gives out frames of physical memory, and keeps the list of the regions of an
-- address space.
--
-- Files.
-- Common and its children: names of the libraries passed on, Boolean tests, lists indexed by
-- native numbers, C integers (Int), rings of slots (Ring), families updated at an index, bits.
-- Sync/Spinlock: spinlock_init, spinlock_acquire, spinlock_try_acquire, spinlock_release and
-- spinlock_is_held of kernel/sync.c. A caller that spins gets as an argument what the lock reads
-- after each call of switch_task; a list that runs out stands for spinning on.
-- Sync/Mutex: mutex_init, and mutex_lock, mutex_try_lock and mutex_unlock as a machine (advance)
-- that makes one access to shared memory at each step, for any number of tasks; a schedule says
-- which task makes the next step and what it calls if it is outside. Sync/Mutex/Invariant,
-- Safety, Solo and Progress have the proofs.
-- Sync/Semaphore and Sync/Condition: the semaphore and the condition variable of kernel/sync.c.
-- Sync/Laws: their theorems.
-- Ipc/Queue and Ipc/Reader: kernel/ipc.c, each function under its name, on the queues, the
-- statistics and the number of messages allocated. Ipc/Mailbox: the specification, a list of
-- messages for each task.
-- Ipc/Holds and Ipc/Refine: that the queues behave as the mailboxes. Ipc/Laws: what follows.
-- Security/Sid, Token, Descriptor and Policy: kernel/security.c, each function under its name.
-- Security/Laws and Security/Access: their theorems.
-- Security/UserMemory: kernel/security_syscall.c on a memory that is a function from addresses
-- to bytes. Security/UserMemory/Pointer and Copy: its theorems.
-- Tcp/Buffer: the tcp_buffer functions of network/src/tcp.c. Tcp/Loops and Tcp/Stream: that they
-- are a bounded stream of bytes.
-- Tcp/Socket, Checksum, Segment, Process, Receive, Ports, Calls and Connect: the rest of
-- network/src/tcp.c, each function under its name, on its statics; the segments that it sends
-- and the callbacks that it makes are recorded. Tcp/Moves, Steps and Isolation: which sockets an
-- incoming segment touches. Tcp/Delivery: what arrives in the receive buffer. Tcp/Wire: a
-- segment as bytes.
-- Tcp/Opening and Handshake: the opening of a connection. Tcp/FreePort: the search for a port.
-- Net/Buffer and Net/Device: the buffers and the table of devices of network/src/network.c.
-- Net/Buffer/Spec: the specification of a buffer, bytes with room at both ends;
-- Net/Buffer/Refine: that the buffers behave so. Net/Device/Names: the names of devices.
-- Net/Ethernet: ethernet_rx and ethernet_tx of network/src/ethernet.c. Net/Ethernet/Dispatch:
-- its handlers.
-- Net/Ip/Address and Packet: network/src/ip.c, each function under its name, on its statics; the
-- outcomes of ip_tx and ip_rx are values. Net/Ip/Wire and Delivery: a packet from one host to
-- another. Net/Ip/Functions: that the buffers of network.c do what ip.c expects.
-- Net/Ip/Registry: the table of protocol handlers.
-- Net/Udp: the datagrams of network/src/udp.c, on its sockets and the calls of callbacks; what
-- it calls is a record of arguments. Net/Udp/Datagram: a datagram from its sender to a callback.
-- Net/Udp/Sockets: the calls on sockets. Net/Udp/Sockets/Distinct and Found: which socket gets a
-- datagram. Net/Udp/Sockets/FreePort: the search for a port is that of TCP.
-- Fat12/Disk, Image, Directory and File: filesystem/fat12.c, each function under its name.
-- Fat12/Names: the two forms of a file name. Fat12/Listing and Lookup: what is listed and found.
-- Fat12/Copy, Chain and Contents: what is read of a file. Fat12/Table: the entries of the FAT.
-- Vmm/Frames: the frame array of memory/vmm.c. Vmm/Counts, Sound and Laws: its bookkeeping.
-- Vmm/Start: the frames after vmm_init.
-- Vmm/Regions: the list of regions of an address space of memory/vmm.c. Vmm/Disjoint and
-- Vmm/Lookup: that they do not overlap, and what is found in them.
-- Sched/Queue, State, Sleep, Dispatch and Balance: kernel/scheduler.c, each function under its
-- name, on the global `scheduler` and the tasks that its pointers reach. Sched/Spec: the
-- specification of the ready queues, a list of tasks for each priority. Sched/Holds, Refine and
-- Laws: that they behave so. Sched/Sleeping: the sleeping list. Sched/Running:
-- scheduler_schedule as a whole. Sched/Target, Extremes and Balanced: the choice of a processor
-- and the load balancing.
-- Sync/Tests, Ipc/Tests, Sched/Tests, Security/Tests, Tcp/Tests, Vmm/Tests, Fat12/Tests and
-- Net/Tests: the theorems at concrete inputs.
--
-- Conventions. A pointer that may be NULL is an Option. malloc and heap_alloc are arguments:
-- whether they find memory, and what it holds; so are ip_tx, ip_alloc_packet and the clock of
-- TCP, and the functions netbuf_push, netbuf_pull and netbuf_trim of IP, which are defined
-- nowhere. What FAT12's local arrays hold before they are filled is an argument, for each round
-- of a loop. Logging changes no state and is left out. A loop recurs on the number of its
-- rounds, which the code bounds, so no fuel runs out: the capacity of a queue, the number of
-- groups or entries, the 4096 bytes of a string, the number of frames. The search for a port has
-- 2 ^ 16 rounds, as many as there are ports; the fold of a checksum has three, which are enough
-- for 32 bits. The loop over the clusters of a file has a round for every 512 bytes that are
-- wanted or the rest of them, and one more; a sum of ints there that overflows has no result, as
-- in C. The loops that the code does not bound, the spinning ones, recur on the list of what
-- other tasks do. Unsigned sums wrap at 2 ^ 32 where they can reach it. The lock_count of a
-- mutex is an int, and an integer without bound here: fewer than 2 ^ 31 nested calls of
-- mutex_lock are assumed. The structures of kernel/security.c have the fields that it uses;
-- kernel/security.h declares others.
--
-- A call of the scheduler is one step, as it holds scheduler.lock; the switch to another task
-- ends it.
--
-- Not modelled: of kernel/scheduler.c the creation of a task and the set-up; tasks and threads,
-- the heap, paging and mappings (of vmm_map_page only the frames that vmm_init takes with it),
-- the file systems other than FAT12, the VFS with its cache and journal, udp_init of
-- network/src/udp.c, ICMP, DNS and DHCP, as later extensions; of network/src/ip.c the functions
-- ip_send and ip_receive, which nothing calls, and the text form of addresses, as in
-- network/src/ethernet.c; of network/src/network.c network_receive_packet, the release of
-- buffers and the loopback device; of network/src/tcp.c the retransmission in tcp_timer, whose
-- timer network/include/tcp.h does not declare; drivers, interrupts, graphics, virtualisation
-- and start-up, which are mostly input and output; of kernel/security.c the formatting of an
-- identifier and the two setters that store nothing; of kernel/security_syscall.c the stack
-- canary. condition_wait is modelled without the calls that it makes on its mutex.
pub mod Common
pub mod Sync
pub mod Ipc
pub mod Sched
pub mod Security
pub mod Tcp
pub mod Vmm
pub mod Fat12
pub mod Net
