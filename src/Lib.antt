-- ===== src/Lib.antt =====
-- cpu5: a computer built from 7400 logic, with its tool chain and its kernel.
--
-- alu/alu_generator.c computes the two lookup chips of the ALU. binutils/ holds the assembler and
-- the linker, which make the images that the machine runs. software/kernel/ is the kernel: a serial
-- port filled by an interrupt handler, a memory unit with a table of pages for each process, a
-- round-robin scheduler driven by a tick, and system calls.
--
-- Prelude.antt passes on the library names and has the shared helpers: Boolean tests on numbers,
-- lists, machine words, arrays as functions with a pointwise update, and counted loops.
--
-- Alu.antt models alu/alu_generator.c. `gen` is split into the address (`decode_address`), the switch
-- (`operate`, with `gen_add`, `gen_sub` and `gen_neg` for its longer cases) and the flags (`pack`).
-- A chip is a function from addresses to bytes; `fill` is the loop of `main`, and `images` what it
-- leaves. `test_gen_output` is the look-up of an operation on two bytes. The debug argument and the
-- self test are left out. Alu/Nibble.antt checks the chips by evaluation, Alu/Lookup.antt the
-- look-up, Alu/Arith.antt has the results on bytes and 16-bit words.
--
-- Binutils.antt has a module for each part of binutils/. Binutils/Text.antt: C strings as lists of
-- bytes. Binutils/Labels.antt: labels.c, the label vector of a section as a list of entries, the
-- label mask as a list of uses, and the counter of ids that all sections share.
-- Binutils/Keywords.antt and Binutils/Asm.antt: keywords.h, and the instructions of asm.c, as
-- functions from the tokens to the bytes emitted, with the argument that is expected next.
-- Binutils/Section.antt: sections.c, where the label vector and mask are bytes again.
-- Binutils/Link.antt: link.c, with a section named by its file and its number there; `none` is
-- where the linker stops with an error. Placement (`linker_offset_labels`) and patching
-- (`linker_link`) are recursions on the lists of nodes that the program loops over.
-- Binutils/Dict.antt: `build_section_lists` of link.c, with `get_dict_by_name` and
-- `append_to_sect_list`; the limit of 255 names is not tested there, nor here.
-- Binutils/Reach.antt: `mark_used_sects`, `require_label` and `require_section` of link.c. The used
-- flags are a function of the section while the search runs. Fuel counts nested calls, and one more
-- than there are nodes is enough, since each nested call has marked a node.
-- Binutils/Sort.antt: `sect_comparator` of link.c; `qsort` is a parameter of `sort_sects`.
-- Binutils/Token.antt and Binutils/Constants.antt: token.c and constants.c. The bytes that are still to
-- be read are a list, beside the last byte that a token took; the token buffer of 64 bytes has no end here.
-- Binutils/Assemble.antt: the sections, directives, arguments and the loop of asm.c, on one state that
-- holds its globals. Where the program stops with a message (`panic_full` of util.c), the result says
-- which (Binutils/Result.antt). Bytes that nobody has written are those of a parameter, `unwritten`. The
-- loop has one unit of fuel for each byte of the file and one more, since each turn reads a byte or ends.
--
-- Kernel.antt has a module for each part of software/kernel/. Numbers are kept below the width that
-- the C type has, with the wrap-around written as a remainder; on this machine `int` has 16 bits.
-- Kernel/Uart.antt: uart.c, and `getc` of klib.c, as functions on the buffer and its positions;
-- Kernel/Uart/Fifo.antt is the queue that they implement, and Kernel/Uart/Interleave.antt the
-- relation of single steps of `getc`, the load and the store of its decrement apart, and interrupts.
-- Kernel/Mmu.antt: mmu.c and the macros of mmu.h. The TLB is the bus from 0x6000 on; the stores to
-- TLB_INDEX, SET_PAGING and RESET_PAGING are fields. The searches that end at index 0xff recur on
-- the distance to it.
-- Kernel/Frame.antt: the interrupt frame of interrupts.h in memory, and its copies in interrupts.c.
-- Kernel/Interrupts.antt: `init_interrupts` and `page_fault` of interrupts.c. The addresses of the
-- handlers, which the linker gives, are a parameter.
-- Kernel/Os.antt: proc.c, `populate_tlb` of mmu.c, and the loops over the pages of a process in
-- `start_init` of kernel_main.c and `sys_exec` of syscall.c. The endless loops of `sched` and
-- `get_new_pid` take fuel and return `none` when it runs out: six rounds find a process to run
-- where there is one, and seven a pid.
-- Kernel/Disk.antt: blk.c, ata.c and `read_file` of fs.c. The part of `blockDataCache` that a slot
-- points to is a field of the slot. The storage device is taken to answer the reads that follow an
-- address with the bytes of that block in order. `bread` takes fuel for its endless loop, of which
-- `read_file` gives two rounds; its own loop has one round for each byte at most.
-- Kernel/Directory.antt: `stat` of fs.c. A search that leaves the first block is `beyond`.
-- Kernel/Klib.antt: the strings, memory comparison, hexadecimal output and input line of klib.c. `char`
-- has no sign there, as on this machine, whose shift to the right fills with zeros. `getline` works on
-- what the calls of `getc` give, and `none` is its wait for more.
-- Kernel/Shell.antt: `fxnMul`, `build_argv` and `get_cmd_idx` of kernel_main.c, without their messages.
-- Places in the line are the strings from there on, and the end of an argument is cut at the space that
-- the loop has overwritten; the fuel is the length of the line.
-- Kernel/Syscall.antt: syscall.c between the prologue and the epilogue of the handler, with the text
-- that its calls put out. `sys_exec`, which leaves through the epilogue, is a parameter there.
-- Kernel/Load.antt: `load_process` of proc.c. Physical memory is pages of 4096 bytes. Reads and writes go
-- to the page that the memory unit selects, by its paging flag and the entry of its current index, as in
-- VMem of simulation/logic/l_sim.cpp, where a write without permission stores nothing; `load_process` maps
-- entry 0xA to each page in turn. The loop has 17
-- units of fuel: 16 bits of size are 16 pages at most, and one unit is for the test that ends it.
-- Kernel/Os/Start.antt: `start_init` of kernel_main.c behind `init_proc` and `init_mmu`, and the timer
-- interrupt. The processes, the physical pages and the storage are the fields of one state; the list of
-- processes, the interrupt frame and the cache are kept apart from the pages, so that results speak of the
-- pages from 16 on, behind those that `init_mmu` gives to the kernel.
-- Kernel/Os/Exec.antt: `sys_exec` of syscall.c and `memcpy_from_user` of mmu.c on that state; `none` is
-- where the machine halts, or where the program leaves an array.
--
-- Tools/Mkfs.antt: tools/mkfs.c. What `readdir` and `read` give is a list of files, in that order; the
-- host stores words low byte first. The byte of a directory entry that is not written is a parameter.
-- Tools/Mkfs/Lookup.antt, Missing.antt and Loading.antt join it to fs.c and proc.c of the kernel,
-- Tools/Mkfs/Boot.antt and Tools/Mkfs/Exec.antt to `start_init` and `sys_exec`.
--
-- Not modelled: files and options of the tools and their printing, register saving in assembly, the
-- hardware that the stores drive, the loop of `main` in kernel_main.c, `list_files` of fs.c, the
-- applications, C++ simulators and the microcode compiler, and the copies of other projects under
-- compiler/.
pub mod Prelude
pub mod Alu
pub mod Binutils
pub mod Kernel
pub mod Tools
