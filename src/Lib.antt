-- ===== src/Lib.antt =====
-- A model of the kernel in xv6-public-master: xv6 with a scheduler of three queues, system calls that
-- count and list system calls, a console with a line editor and a history, and a reentrant lock; and of its
-- programs grep, encode and decode.
--
-- Source files are named from xv6-public-master. The process table (proc.c, proc.h) is the centre: the
-- scheduler and the timer choose among its entries, fork, exit and wait make and free them, and sleep
-- and wakeup, which pipes and locks call, change their states. Pages for kernel stacks come from kalloc.c,
-- open files from file.c. A file's content lies in inodes (fs.c), whose blocks are changed through the log
-- (log.c), so that a crash leaves all changes of a transaction or none. Keys go through console.c to the
-- reader of the console. trap.c counts system calls and hands them to syscall.c.
--
--   Base        the names that all files share: lists with native indices, 32-bit words, Outcome
--   Bytes       string.c: memset, memmove, memcmp, strncmp, strncpy, safestrcpy, strlen
--   Kalloc      kalloc.c: kfree, kalloc, freerange on memory; free_page and take_page on a list of pages
--   File        file.c: filealloc, filedup, fileclose, fileread, filewrite
--   Pipe        pipe.c: pipewrite, piperead and their steps
--   Proc        proc.h: the data of the table. Below it: Lookup (get_proc_by_pid, wakeup, kill, sleep, yield,
--               change_queue), Life (allocproc, fork, growproc), Boot (userinit), Exit, Wait, Stats (the functions that
--               count and list system calls, create_palindrome), and Pids, on what all of these do to pids
--   Sched       round_robin, shortest_job_first, first_come_first_service, aging, scheduler of proc.c, and
--               update_remain_times and the tick of trap.c
--   Log         log.c: commit, recover_from_log, begin_op, end_op, log_write. Below it: Header (what is in the header
--               block), Crash, States, Commit and Recovery (crashes), Space (the blocks that begin_op reserves)
--   Fs          fs.c: balloc, bfree, bzero; Bits is about the bits of a byte, Marks, Scan and Blocks about the map
--   Inode       fs.c: iget, idup, ialloc, iupdate, ilock, bmap, itrunc, iput, readi, writei. Below it: Content
--               (the last five), Cache and Refs (references), Disk (struct dinode), Map (bmap), Reading, Laid and Writing
--   Directory   fs.c: namecmp, dirlookup and dirlink
--   Path        fs.c: skipelem, and the loop of namex over it
--   Console     console.c: the line and the screen. Below it: Print (cprintf, printint), History (the history, the end of
--               a line, consoleintr), Text (a text with a cursor), Shift, Moves, Line, Enter, Codes, Cells, Screen,
--               Kill, Digits, Overrun (what holds of them)
--   Syscall     syscall.c, and the counting in trap.c and get_number_of_total_syscalls
--   Spinlock    spinlock.c
--   Locks       sleeplock.c, and the reentrant lock of proc.c
--   Grep, Cipher  grep.c; encode.c and decode.c
--   Ulib        ulib.c: strcpy, strcmp, strchr, atoi, memmove
--   Tests       runs on small inputs
--
-- How the code is read. A `struct proc *` or `struct file *` is an index into its table. An int or uint is
-- the word below 2^32 that holds it, and sums that can pass 2^32 wrap around; the signed order is
-- `slt`. A function ends in a value, in `panic`, or in a `fault` where the code would read or write
-- through a null pointer, or outside of an array of console.c. A function that holds one lock throughout is one step; where it sleeps or
-- switches contexts its model stops, and says with what. `aging` drops its lock around each call of
-- `change_queue`, and `fork` drops its lock between `allocproc` and the mark RUNNABLE; both are nevertheless one step here. Functions of vm.c and those behind
-- the system calls are parameters, and so are the inode layer in File and Proc and the devices in Inode. The
-- log and the file system see a block as the buffer cache promises it: `bread` gives its newest content.
--
-- Bounds and fuel. Loops over the table run over the list or over NPROC entries. `round_robin` has the
-- 16384 rounds of the code. The loop of filewrite has one round more than there are bytes, freerange
-- one more than there are pages, and the digits of an int ten, which is always enough. `strlen` and
-- the routines of ulib.c have fuel, any number above the length of the string. The scheduler, aging and exit are stated for a table of (at
-- most) 64 entries. `balloc` looks at one block of the map more than the size of the disk needs, `readi` and `writei`
-- have a round for each byte, ^U one for each character of the line. printint has the 16 places of its
-- array: a digit or sign that does not fit is a `fault`.
--
-- Not modelled: vm.c, the list of buffers of bio.c, the references that namex takes (fs.c),
-- exec.c, sysfile.c, sh.c, umalloc.c, the drivers, the boot code and the other user programs. Of console.c
-- the keys ^F (paste) and ? are left out; the latter computes in floating point. Drivers and boot code work
-- on devices.
pub mod Base
pub mod Cipher
pub mod Grep
pub mod Ulib
pub mod Log
pub mod Fs
pub mod Console
pub mod Path
pub mod Inode
pub mod Directory
pub mod Bytes
pub mod Proc
pub mod Sched
pub mod Pipe
pub mod File
pub mod Kalloc
pub mod Syscall
pub mod Spinlock
pub mod Locks
pub mod Tests
