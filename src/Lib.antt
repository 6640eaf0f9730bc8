-- ===== src/Lib.antt =====
-- The kernel and the C library of Chaotix, a small UNIX-like operating system for i386: models of
-- the parts that hold state or compute, and theorems about them. Paths are from the repository's root.
--
-- - RingBuf: kernel/ring_buf.c, the byte ring behind pipes, sockets and terminals. The record RingBuf
--   has the struct's buffer and indices; init, read, write, write_evicting_oldest, is_empty, is_full
--   are the functions ring_buf_*. Each loop is a recursion on the bytes or rounds left, so it ends.
-- - Fifo: kernel/fs/fifo.c, pipes over a RingBuf. A reader or writer takes atomic steps (the test
--   whether to wait, and the body run with the mutex held); Fifo.History runs any sequence of them.
-- - RangeAllocator: kernel/memory/range_allocator.c, first-fit allocation of address space. The free
--   ranges are a list in the order of the links; what the paging functions return is an argument.
-- - CString: common/string.c and parts of common/strings.c and common/ctype.h. A string is the memory
--   from its pointer on, a list behind whose end a NUL lies; CString.Defs reads, CString.Copy writes,
--   CString.Tokens is strtok_r. Only the loop over strtok_r takes fuel, the length of the string and one.
-- - Vfs: the path names of kernel/fs/vfs.c. Vfs.Components builds the component list as
--   create_path_component_list does, with the calls of kmalloc that succeed counted (Base.Memory).
-- - Process: kernel/process.c. Process.Signals sends and handles signals: the loop over the pending bits
--   takes fuel, the mask itself, since each round makes it smaller. Process.Descriptors is the file
--   descriptor table, in which a description is known by its address; Process.Wait is the test of
--   waitpid (kernel/syscall/process.c).
-- - PageAllocator: kernel/memory/page_allocator.c, the bitmap of free pages and the reference counts.
-- - Stdlib, Shell: common/stdlib.c and userland/sh.c. Shell.Editor is the line editor, one function per
--   handler; Shell.Line is the line as its user sees it, with what each key does. Shell.Parser is the
--   parser of command lines; its two recursions take fuel, the length of the line and one. Shell.Grammar
--   has the lines that it accepts, printed, with their trees.
-- - FbConsole: kernel/console/fb_console.c, the terminal. FbConsole.Screen is the screen and its cursor,
--   FbConsole.Escapes the state machine of the escape sequences. A write outside of an array sets a flag.
-- - GrowableBuf: kernel/growable_buf.c, the contents of files; the kernel's memory answers by arguments.
-- - FileTable: the system calls on descriptors (kernel/syscall/fs.c) with the reference counts of the
--   descriptions (kernel/fs/fs.c), over Process.Descriptors; the last close of a pipe is that of Fifo, and
--   what inode_unref does is not modelled. TmpFile: reading, writing and seeking through a
--   description (kernel/fs/fs.c) of a regular file of kernel/fs/tmpfs.c, over GrowableBuf and Mutex.
-- - UnixSocket: kernel/unix_socket.c, a ring in each direction and the queue of a listener.
-- - Stdio: common/stdio.c, itoa and vsnprintf. The loop over the format takes fuel, its length.
-- - Dentry: kernel/fs/dentry.c. Dentry.Names has the directory as a map from names to inodes.
-- - Scheduler: kernel/scheduler.c, the list of processes and the ready queue; the callbacks that end a wait
--   are an argument.
-- - Mutex: kernel/lock.c; a round of each loop is one step.
--
-- Words are natural numbers with the wrap-around written out (Base.Word). A failed ASSERT is the
-- outcome panic (Base.Outcome). Assembly, drivers' port input and output, page tables, and the
-- userland programs that only print are not modelled.
pub mod Base
pub mod RingBuf
pub mod Fifo
pub mod RangeAllocator
pub mod CString
pub mod Vfs
pub mod Process
pub mod PageAllocator
pub mod Stdlib
pub mod Shell
pub mod Dentry
pub mod Mutex
pub mod Scheduler
pub mod FbConsole
pub mod GrowableBuf
pub mod FileTable
pub mod TmpFile
pub mod Stdio
pub mod UnixSocket
