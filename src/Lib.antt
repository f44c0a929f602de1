-- ===== src/Lib.antt =====
-- Verification of a small kernel for the i386 that runs in QEMU: its page frame allocator, its
-- page tables, its scheduler and semaphores, the dispatch of interrupts, the drivers for timer,
-- screen, keyboard, serial port and disks, formatted output, and the libraries under them.
--
-- How the parts fit together: the allocator (kernel/mm.c) keeps a bitmap (lib/kernel/bitmap.c)
-- with a bit for every page of its pool and clears pages with memset (lib/string.c). The scheduler
-- (kernel/sched.c) takes the page of a new task from the allocator and keeps tasks in circular
-- lists (lib/list.h): one list of all tasks, and one ready list for each priority. Semaphores
-- (kernel/sync.c) move tasks between a ready list and their own list of waiting tasks. The timer's
-- interrupt (devices/hw_timer.c) reaches the scheduler through the dispatch (kernel/interrupt.c),
-- which acknowledges it at the interrupt controllers (devices/pic.c) and switches tasks when the
-- handler has asked for it. The serial driver (devices/serial.c) takes a semaphore for each
-- character. The driver of the disks (devices/ide.c) has two semaphores for each adaptor, one that
-- serializes reads and writes and one that the adaptor's interrupt raises, and registers its disks
-- with the block devices (devices/block.c). The start of the kernel (kernel/init.c) sets up the
-- allocator, takes the pages of its page directory from it, starts interrupts, tasks and disks and
-- reads a sector. printk (kernel/utils.c) shows what
-- vsprintf (lib/vsprintf.c) writes, character by character, on the screen (devices/fb.c).
--
-- The files and the code they model:
--   Base         what the others share: Boolean tests, lists with native indices, 32-bit arithmetic
--                with its wrap-around written out, outcomes of calls, binary digits, signed numbers
--   Round        lib/round.h: div_round_up, round_up, round_down
--   Bitmap       lib/kernel/bitmap.c and bitmap.h, every function; View is the abstract view as a value
--                for each bit, Config and Ranges the writes, Search the search, Create the set-up
--   Memory       memory as a byte at every address, and strings in it
--   Str          lib/string.c, every function that it defines
--   Spin         kernel/sync.c: spin_lock, spin_lock_alt, spin_unlock, spin_lock_init; Exclusion is several
--                processors
--   Vaddr        kernel/vaddr.h
--   Mm           kernel/mm.c and mm.h; Pool is what makes a pool well formed, Get the allocation, Free
--                the release, Init the set-up, Grants lists of page ranges, and History, with Kept and
--                Laws, all sequences of allocations and releases
--   Links        lib/list.h over the `next` and `prev` of all nodes by address; Shape is when these
--                form a list, Laws and Insert what an operation does to its list, Frame what it does to others
--   Sched        kernel/sched.c and sched.h; Create and Start are the creation of tasks and sched_init,
--                Switch is about schedule, Created and Nodes about task_create, Saved about the stack
--                that it saves, Life about task_exit and task_tick, and Stage, Heads, Idle and Started
--                about sched_init
--   Semaphore    kernel/sync.c: sema_init, sema_down, sema_up
--   Devices      lib/asm/io.h as writes in order; Timer devices/hw_timer.c, Pic devices/pic.c, Gates
--                kernel/interrupt.c, Fb devices/fb.c, Ctype lib/ctype.h, Kbd devices/kbd.c, Serial
--                devices/serial.c, Block devices/block.c, Ide devices/ide.c
--   Devices/Gates Gates.antt has the descriptor table and the dispatch; Laws is about gates, Dispatch about
--                one interrupt of the timer, Turns and Fair about many of them
--   Devices/Ide  Ide.antt has the registers, selection, polling and reset, Info the strings of the
--                identification, Transfer the interrupt, reads and writes, Start ide_init, Blocks the
--                disks as block devices, Sent what the accesses send to a disk, Again a sector written and read
--                again; Polls, Sector, Copy, Settled,
--                Returns and Setup are about these
--   Format       lib/vsprintf.c; Digits, Numeral and Decimal are about numbers as text, Pieces
--                spells formats as lists of pieces, Output is the text that they give, and Written, Letters
--                and Run are about how it gets into the buffer
--   Printk       kernel/utils.c
--   Paging       kernel/pte.h and the page directory of kernel/init.c; Words is about words in memory,
--                Entry about entries and the translation by the processor, Frames about pages from a fresh
--                pool, Step and Loop about the loop over the pages, Walk, Maps and Boot about the result
--   Start        kernel/init.c: main in its order of calls, and the handlers that only print; Gates is about
--                the interrupt table that it sets up, Sector about the first sector of the disk
--
-- State is passed explicitly. A C object is a record with the fields of the struct, an array a
-- list, and memory that code addresses by bytes a function of the address. A call has an outcome:
-- its result, a fault (an access outside of an object), or a hang (a lock that nobody gives back,
-- or a loop that runs out of rounds). A 32-bit signed field is held as its word.
--
-- Bounds: the search of the bitmap has one round for each bit behind its start and one more, which
-- is enough since every round but the last moves on by a bit at least. The loops of strlen and
-- strcmp and the search of the block devices have 2^32 rounds, as many as there are addresses. A
-- polling loop of the serial driver has one round for each answer of its register, and a list of
-- answers that is used up is a hang. The polls of the disk driver have the 3000 and 1000 rounds of
-- the source. The loop over the digits of a number has 33 rounds, one more than a 32-bit number has
-- digits in base 2; the loops of vsprintf over its format have 2^32 rounds. The loop that exchanges
-- the bytes of a string has as many rounds as the string has bytes, and needs half of them.
--
-- Except in Spin.Exclusion, one processor runs; the switch of stacks in kernel/switch.S appears as
-- the change of the current task. A call that switches is modelled up to that switch; in the disk
-- driver, what interrupts do before a wait and what others do while a task sleeps is a parameter, a
-- function of the driver's state. Interrupt flags of the processor (cli and sti), delays and the
-- messages of drivers are left out. What ports answer is a parameter: for the disk driver a function
-- of all accesses so far. The code at a handler's address and the addresses of assembly routines
-- and of static objects are parameters too. An int is held as its word and wraps around.
--
-- A sequence of interrupts of the timer is taken while no task acts, and a sequence of allocations
-- and releases one call at a time, as the lock of the pool has it. In main, all parts work on one
-- memory, which is handed from one to the next; its static variables are the fields of the records.
--
-- Not modelled: the assembly under boot/ and kernel/, of which the switch of stacks and the stubs of
-- the interrupts appear by what they do; the instructions for the interrupt flag; and the headers that
-- only name the compiler's types.
pub mod Base
pub mod Round
pub mod Bitmap
pub mod Memory
pub mod Str
pub mod Spin
pub mod Vaddr
pub mod Mm
pub mod Links
pub mod Sched
pub mod Semaphore
pub mod Devices
pub mod Format
pub mod Printk
pub mod Paging
pub mod Start
