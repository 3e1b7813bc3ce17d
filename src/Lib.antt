-- ===== src/Lib.antt =====
-- LevOS 7, a small Unix kernel for i386: models of its inter-process communication, its memory areas,
-- its deferred work, its terminals, its file systems and its TCP layer, and what is proved of them.
--
-- The parts and how they interact. A byte ring (lib/ring.c) carries the data of pipes (kernel/pipe.c),
-- of terminals (drivers/n_tty.c, drivers/tty.c) and of TCP connections (net/tcp.c). Signals
-- (kernel/signal.c) are sent by pipes whose reader is gone and by control characters of a terminal.
-- The memory areas of a task (mm/vma.c) are kept in an ordered list and back mmap and page faults.
-- The virtual file system (fs/vfs.c) finds the mount that a path is under and passes the rest of the path
-- to its file system; ext2 (fs/ext2) resolves it name by name and maps the file's bytes to blocks.
--
-- Files:
--   Base      names that all share: tests, lists, 32-bit words, the answers of malloc; Base.Ordered is
--             the interface of list_insert_ordered (lib/list.c), with its documented behaviour
--   Ring      lib/ring.c, include/levos/ring.h: ring_buffer_init is Ring.init, __ring_buffer_write is
--             put_byte, ring_buffer_write is Ring.write, and likewise for reading
--   Pipe      kernel/pipe.c: pipe_create, do_pipe_read and do_pipe_write under their names; the file
--             operations pipe_read and pipe_write are file_read and file_write
--   Signal    kernel/signal.c, include/levos/signal.h: every function under its name; the loop at
--             retry of signal_handle is pick
--   Vma       mm/vma.c, and of mm/mapping.c the reference counts: every function under its name
--   Tcp       net/tcp.c, include/levos/tcp.h: a connection is Conn (struct tcp_info); tcp_handle_packet
--             is handle_segment for the connection that was found
--   Tty       drivers/n_tty.c, drivers/tty.c, and videocon_tty_interrupt_output of
--             drivers/video_console.c: a terminal is Tty (struct tty_device with n_tty_priv)
--   Work      kernel/work.c, include/levos/work.h: a round of worker_thread is worker_round
--   Itoa      lib/itoa.c
--   Ext2      fs/ext2/block.c, inode.c, file.c, dir.c and super.c: functions under their names; the loop of
--             ext2_read_file over the blocks is read_loop, and ext2_alloc_block and ext2_alloc_inode are
--             alloc_from with the fields that each of them uses
--   Vfs       fs/vfs.c: the loop of find_mount is shorten, the two loops of __canonicalize_path over the
--             tokens are tokens and steps; vfs_open and vfs_stat come in as passed_on and opened
--
-- A loop that waits for another task or for a device is a result of its own (spin, waits): the model
-- stops where the code would wait; a lock that nothing gives back is waits or none. Where C gives the run
-- no meaning, a result says so: overrun for a write outside the line of a terminal, fault for the use of
-- freed descriptors in ext2, underflow for an element of an empty list. A failed assertion is panic.
--
-- Bounds and fuel. Numbers are natural numbers; sums and differences of uint32_t and int are taken
-- modulo 2 ^ 32 where the code does not rule the wrap-around out. The loop of itoa has the number itself
-- as its fuel, which is enough because each round divides it by a base above 1. The loops over a directory
-- block have a turn for each byte of the block, which is enough because an entry takes a byte at least;
-- those that pad a size have as many turns as there are residues. All other loops are
-- recursion on a list or on a count.
--
-- An int is the word that holds it, where the code compares or divides it as such: a file position of ext2
-- is negative from 2 ^ 31 on. The handler table of a task is followed by the word behind it, which the
-- signal number 31 reaches; the table of mounts is a list, whose bound of 256 is a hypothesis.
--
-- Parameters. Memory: the results of malloc and calloc are arguments, or a list of answers. The list
-- library comes in through its interface; the hash table of connections by the result of a lookup; the
-- scheduler by the calls made to it, which are returned as values. The device under ext2 is an
-- interface with laws (Ext2.Store), and so is the search of a bitmap (Ext2.Alloc); the operations of a
-- mounted filesystem are arguments of Vfs.
--
-- Not modelled: the scheduler, page tables, opening and creating files and directories in ext2, the file
-- systems of devices and processes, system call dispatch and the ELF loader, the network layers below
-- TCP and its checksums, device drivers, start-up code and user space; the
-- libraries of other projects that the kernel carries (lists, hash tables, bitmaps, the heap).
pub mod Base
pub mod Ring
pub mod Pipe
pub mod Signal
pub mod Vma
pub mod Tcp
pub mod Itoa
pub mod Tty
pub mod Work
pub mod Ext2
pub mod Vfs
