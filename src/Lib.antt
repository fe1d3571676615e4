-- ===== src/Lib.antt =====
-- axiomeOS, a small x86-64 operating system written in C: a verification library of its kernel's
-- pure logic, its C library and its boot loader, translated from the sources.
--
-- The kernel is a set of components that call one another directly. The boot loader
-- (bootloader/) hands the kernel a memory map; the frame allocator (kernel/pmm.c) takes its frames
-- from it. Input drivers (kernel/keyboard.c, kernel/hid_boot.c) hand characters to the terminal
-- (kernel/tty.c), which processes read; the mouse driver (kernel/mouse.c) queues events. The
-- virtual file system (kernel/vfs.c) resolves paths through its mount table and asks the roles and
-- capabilities of kernel/security.c who may write; that file also reads the users from /etc/passwd
-- through the file system, and checks their passwords. The kernel log (kernel/journal.c) keeps its
-- end in a ring and writes it to a file once there is one. TCP (kernel/tcp.c) hands its segments to
-- the layers below and is entered by them again in tcp_rx, over the loopback device even within the
-- call that sends. The scheduler (kernel/sched.c) keeps the threads that can run in a ring, and the
-- allocator of the kernel (kernel/slab.c) takes its pages from the frame allocator.
--
-- Which file models what:
--   Prelude            numbers, lists, bits and integers shared by all
--   Pmm, Pmm/Init      kernel/pmm.c and the region test of kernel/mmap.h
--   Tty                kernel/tty.c
--   Keyboard           kernel/keyboard.c, from the interrupt to the codes sent to the terminal
--   Hid                kernel/hid_boot.c
--   Mouse              kernel/mouse.c, from the interrupt to the queue of events
--   KString            kernel/string.c
--   Security           Roles: the capabilities of kernel/security.c and the roles of
--                      kernel/posix.c; Users: the user database; Sha: the hash; Passwd: the parser
--                      of /etc/passwd
--   Vfs                Paths, Mounts, Perms and Ramfs: those parts of kernel/vfs.c
--   Journal            kernel/journal.c; Writes: the file that its writes at their offsets leave
--   Boot/Mmap          bootloader/mmap.c and the memory map of kernel/axboot.c
--   Net/Csum           the checksums and byte order of kernel/net_util.h
--   Net/Buf            the chains of network buffers of kernel/net_buf.c
--   Net/Tcp            kernel/tcp.c: the table and the sending of a segment; Header: the header and
--                      its checksum; Rx: tcp_rx; Api, Send, Tick: the calls and the timer; Loop: the
--                      loopback device (kernel/loopback.c); Table, Wire, Sound, Stream, Reach and
--                      Handshake: proofs about these
--   Net/Udp            kernel/udp.c; Laws: a datagram on its way; Table, Ports: the sockets and their
--                      ports
--   Net/Arp            kernel/arp.c
--   Sched              kernel/sched.c: the threads and their creation; Switch: yielding, blocking, sleeping
--                      and exit; Children: zombies and the lists of processes; Wait: sys_waitpid of
--                      kernel/syscall.c; Lists, Ring, Sound, Alike, Turns, Fair, Laws, Ticks and Sleep:
--                      proofs about these
--   Slab               kernel/slab.c; Laws, Grown, Given and Returned: proofs about it
--   Libc/Malloc        the allocator of kernel/userspace/libc/stdlib.c
--   Libc/Memory        memmove, memchr and strstr of kernel/userspace/libc/string.c
--   Libc/Time          the calendar of kernel/userspace/libc/time.c
--
-- How the code is read. A function that changes static variables takes their values as a record and
-- returns the new one. Machine words are natural numbers, with the wrap-around written out where a
-- sum or difference can leave the word's range. Memory is a list of cells or, for the frame
-- bitmap, a function from indices. A byte that a port gives, the running thread and what happens
-- while a thread yields are arguments. A lock that is held for a whole call makes the call one
-- step and does not appear.
--
-- Loops are recursions on a list or on the rounds left. `Pmm.find_run` recurs on fuel and is given
-- one round more than there are frames; each round of it moves the start up by at least one.
-- `Passwd.load_lines` is given one round for each byte of the file, of which each line takes one or
-- more, and `Ramfs.double_cap` as many doublings as bytes are needed, enough for a need of at most
-- 2 ^ 63; the source's loop does not end for a larger one. `Time.year_loop` has one round more than the
-- days hold years of 365 days. Two rounds of `Csum.fold_loop` fold any 32 bits.
--
-- `Loop.loopback` has fuel for the segments that answer one another within one call; a property of
-- it holds for each amount of fuel. `Buf.append_loop` has a round for each byte that is appended.
--
-- Parameters. What the layers below TCP do with a segment is a function of the segment and the state
-- (`Carrier`), of which a card and the loopback device are instances. What happens in the rounds of
-- a wait, and whether the pools have memory, are arguments of the calls that ask. The contents of
-- fresh memory (`fresh` of `Ramfs`), whether there is memory for the hash, the lookup of a mounted
-- file system, and whether a mount is in use are arguments. `vfs_write` takes what the file system's
-- own write returns, the journal how much of a write the file takes, and `arp_resolve` what polling
-- the cards does to the cache. The scheduler takes the respawning of init, the time, and the memory of
-- a new thread, whose old contents its deadline keeps; the slab allocator takes what the frame
-- allocator and the mapping of pages give it. Where either follows a null link, or the scheduler
-- switches to the idle thread, which has no stack, the result of the model is none, and so is that of
-- `tcp_tick` where it reads the link of a segment that was freed. UDP takes the route to a destination
-- and, like TCP, what happens while a call waits.
--
-- Not modelled: the header checks between TCP and the cards, device drivers that are port or
-- memory-mapped I/O throughout, the page tables, the switch of contexts
-- and the open files of a thread, the file systems' disk formats, DNS and DHCP, the drivers of disks and
-- network cards, user programs, and printing.
pub mod Prelude
pub mod Pmm
pub mod Tty
pub mod Keyboard
pub mod Hid
pub mod Mouse
pub mod KString
pub mod Security
pub mod Vfs
pub mod Boot
pub mod Libc
pub mod Net
pub mod Journal
pub mod Sched
pub mod Slab
