-- ===== src/Lib.antt =====
-- A verification library for the C code of a small Unix kernel: processes, memory, pipes, signals
-- and the block layer. Each definition translates a function or a type of the source and keeps its
-- name; a function that has loops or long bodies is cut into helpers named for what they do.
--
-- The parts, and the files that model them:
--
--   Base       numbers, Boolean tests, lists, maps and integers that the parts share.
--   Mktime     kernel/mktime.c: `kernel_mktime`, on integers of 32 bits, against the Gregorian calendar.
--   Task       include/linux/sched.h: `struct task_struct`, the fields that the code below uses, and
--              the table `task`. A task is named by its index in the table.
--   Sched      kernel/sched.c: `schedule`, the task part of `do_timer`, `sys_alarm`, `sys_nice`.
--              A kernel is the table, the current task and `jiffies`.
--   Timer      kernel/sched.c: the timers. The slots of `timer_list` with their links are a function
--              from indices; Timer/Chain reads a list off the links.
--   Exit       kernel/exit.c: `send_sig`, `sys_kill`, `kill_session`, `tell_father`, the orphans of
--              `do_exit` and one pass of `sys_waitpid`, on the table of tasks.
--   Signal     kernel/signal.c: masks, handlers and the frame that `do_signal` writes on the stack.
--   Sys        kernel/sys.c: user, group and session identifiers, `sys_brk`, `sys_umask`.
--   Mm         mm/memory.c: pages, page tables, `copy_page_tables` for a fork, `free_page_tables` for
--              an exit, copy on write. Memory is a function from addresses to 32-bit words.
--   Pipe       fs/pipe.c: `read_pipe` and `write_pipe`; Pipe/System interleaves a reader and a writer.
--   Console    kernel/chr_drv/console.c: the screen, and in Console/Write the escape sequences of
--              `con_write`.
--   Files      fs/fcntl.c, fs/file_table.c and `sys_close` of fs/open.c: descriptors and counts.
--   Vsprintf   kernel/vsprintf.c: `skip_atoi` and `number`.
--   Blk        kernel/blk_drv/ll_rw_blk.c and blk.h: requests, the elevator, `make_request`.
--   Cache      fs/buffer.c: the hash queues and the ring of free buffers, `getblk`, `brelse`, `bread`;
--              Cache/Ring and Cache/Queues read a list off the ring, Cache/Least is the choice of a
--              buffer. A buffer is named by its index.
--   Tty        kernel/chr_drv/tty_io.c: the queues, in Tty/Cook `copy_to_cooked`, in Tty/Read and
--              Tty/Write `tty_read` and `tty_write`. The driver is a parameter.
--   Fs         fs/bitmap.c, fs/inode.c and fs/truncate.c for one device: new_block and free_block over
--              the bit maps, in Fs/Map `_bmap`, in Fs/Disk the inode in its block, in Fs/Free
--              `truncate`, in Fs/Table the table of inodes. Fs/Dir and Fs/Path are fs/namei.c:
--              directories, the walk of a path and the calls on names, Fs/Path/Access the calls of
--              fs/open.c on the inode of a name; Fs/File is fs/file_dev.c,
--              Fs/Block is fs/block_dev.c, Fs/Rw is fs/read_write.c.
--   Fork       kernel/fork.c: `find_empty_process`, `copy_mem` and the task of `copy_process`.
--
-- How they interact: `schedule` and `sys_waitpid` work on the same table of tasks; `send_sig`
-- sets the bits that `schedule` tests to wake a task and that `do_signal` handles; a fork shares pages
-- through `copy_page_tables`, and the first write to one goes through `un_wp_page`; `read_pipe` and
-- `write_pipe` give up the processor where the source calls `sleep_on`, and their state at that point
-- is a value of the model, so that other steps can come between.
--
-- Loops. A loop over a table is recursion on the slots that are left, from the end that the source
-- starts at. The loop of `schedule` has fuel, and two rounds are proved enough when every priority is
-- above 0. The loop of `add_timer` has fuel 64, the number of slots, which the length of the list
-- stays below. An activation of `read_pipe` or `write_pipe` has fuel, with a proof that it ends.
-- `tty_read` has fuel, and the one state is named in which none is enough. The digits of a number have
-- the number itself as fuel.
--
-- Numbers. Words of memory and flags wrap at 32 bits where the source relies on it, and so do the sums
-- of `kernel_mktime`. Ticks, delays, slices and priorities are natural numbers that do not overflow:
-- a priority of 2^30 or more, for which a slice leaves 32 bits, is outside the model. Process
-- identifiers and results of system calls are integers, with the negative error numbers of include/errno.h.
--
-- Not modelled: the code of interrupts and context switches in assembly (boot, kernel/asm.s,
-- kernel/system_call.s, mm/page.s), the drivers that work on ports (hd.c, floppy.c, serial.c), and
-- the calls that only copy values between the kernel and a process. Mounts, exec and
-- malloc have no model yet. `sleep_on` is an outcome of the
-- operation that calls it; what `wake_up` does to the sleeping task is not modelled.
mod Base
pub mod Mktime
pub mod Pipe
pub mod Mm
pub mod Task
pub mod Timer
pub mod Sched
pub mod Exit
pub mod Sys
pub mod Signal
pub mod Blk
pub mod Vsprintf
pub mod Files
pub mod Console
pub mod Cache
pub mod Tty
pub mod Fs
pub mod Fork
