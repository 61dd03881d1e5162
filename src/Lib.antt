-- ===== src/Lib.antt =====
-- The C stubs under the OCaml libraries of this repository, as functions on an explicit memory.
--
-- The program. base/bin_prot/lib is a binary protocol for OCaml values. write_stubs.c writes values
-- into a buffer, read_stubs.c reads them back, common_stubs.h holds the byte order macros that both
-- stand on, common_stubs.c the handling of buffer pointers. A stub takes the pointer to write or read
-- at and `eptr`, the end of the buffer; the ml_ entry points take a bigarray and a position instead.
-- base/core/lib/bigstring_stubs.c copies bigstrings, searches them, and reads them from and writes them
-- to descriptors and sockets; misc.c beside it computes checksums. They share the buffers: a bigstring
-- is what bin_prot reads and writes. Two stubs start programs: extended_ml_spawn of
-- base/core/extended/lib/fork_exec.c connects descriptors that it is given and hears of errors of the
-- forked side on a pipe; ml_create_process of base/core/lib/unix_stubs.c makes three pipes to the
-- program. The other stubs of unix_stubs.c convert arguments and results of single system calls.
--
-- The files.
--   Prelude, Prelude/      shared types and tests on numbers, lists and bits. `wrap w` is the low w
--                          bits of an integer, `signed w` a w-bit pattern as a signed number and
--                          `cast w` a C conversion to a signed w-bit type.
--   Exec                   state passing, OCaml exceptions and faults (accesses that C leaves undefined)
--   Memory, Memory/        bytes at addresses, `memcpy`, wrapping pointers
--   Endian, Endian/        bswap, htole, le16enc ... be64dec of base/bin_prot/lib/common_stubs.h
--   Write/Integers         write_int, write_nat0 and the integer stubs of base/bin_prot/lib/write_stubs.c;
--                          Encoding holds the bytes of the protocol, Forms all forms that it has
--   Write/Blocks           strings, floats, float arrays, variant tags, bigarrays of write_stubs.c
--   Write/Fixed            the fixed-width writers of write_stubs.c
--   Write/Emit             the promise of a writer: its bytes, or `Buffer_short` and nothing stored
--   Read/Pointer           MK_GEN_SAFE_READ of base/bin_prot/lib/read_stubs.c; the state of a reader is
--                          `*sptr_ptr`
--   Read/Integers          read_int, read_nat0, read_int32, read_int64, read_nativeint of read_stubs.c
--   Read/Blocks            the other variable-length readers of read_stubs.c
--   Read/Fixed             the fixed-width readers of read_stubs.c
--   Bigarray, Bigarray/    MK_ML_WRITER, MK_ML_READER, and the two readers that are written out
--   Pointers, Pointers/    base/bin_prot/lib/common_stubs.c: buffer pointers, the cells `sptr_ptr`, copies
--   Bigstring/Blit         copies, search: base/core/lib/bigstring_stubs.c
--   Bigstring/Input        bigstring_read_stub and bigstring_really_recv_stub
--   Bigstring/Output       MakeReallyOutputFun and bigstring_write_stub
--   Channel, Channel/      bigstring_input_stub and bigstring_output_stub
--   Crc, Crc/              crc32 and crc_octets of base/core/lib/misc.c; Xor holds the laws of `^`
--   RoundTrip, RoundTrip/  reading what was written, at pointers and at positions
--   Process                a process with its descriptors, and the system calls on them
--   Process/Environ        `putenv` of the C library, and what a list of strings says about a name
--   Process/Pipe           report_errno_on_pipe and errno_from_pipe of base/core/extended/lib/fork_exec.c
--   Process/Retry          SYSCALL of fork_exec.c, and the rules to follow a run of several calls
--   Process/Spawn          the forked side of extended_ml_spawn; Outcome says how it may end, Stages,
--                          Wiring, Enter and Forked follow it, Runs and Ids are about its success
--   Process/Spawn/Parent   the parent of extended_ml_spawn, with NONINTR
--   Process/Create         safe_close of base/core/lib/unix_stubs.c; Args holds the array of arguments of
--                          ml_create_process, Child its child, Parent its parent and close_on_exec
--   Unix, Unix/            Files: mknod, stat and flock; Limits: getrlimit and setrlimit; Temporary:
--                          init_mktemp; Select: pselect; these are parts of unix_stubs.c
--   Examples, Examples/    the theorems on concrete inputs
--
-- The host has 64-bit words (ARCH_SIXTYFOUR), either byte order, and is not Darwin or FreeBSD. A C
-- pointer is an address and pointer arithmetic is modulo 2 ^ 64. A memory maps addresses to bytes;
-- an access to an unmapped address is a fault, and a theorem that gives a result excludes it. A
-- `memcpy` from the memory into the memory is modelled as `memmove`; the ranges of the sources are
-- disjoint. An OCaml integer is the number that `Long_val` gives, and `Val_long` is taken to be
-- exact: the theorems are about positions and counts below 2 ^ 62. A double is the eight bytes
-- that the host keeps it in. The data that a writer copies is a list of bytes outside the memory.
--
-- What the OCaml runtime decides is a parameter, the record Runtime of Read/Blocks: the largest block
-- and which bigarrays `caml_ba_alloc` can allocate. It is known of them that a block has fewer than
-- 2 ^ 54 words and that no allocated bigarray has 2 ^ 63 bytes. Other allocations succeed, and
-- blocking sections have no effect: no other thread touches a buffer while a stub runs.
--
-- A stub that calls the system takes the results of its calls as a list, in order; with no result left
-- it is `blocked`. Its loop recurses on this list, and the theorems give the results that end it. The
-- other loops recurse on a length or a list. A system call that the code tries again (SYSCALL) has
-- fuel, one more than the answers that are left, which is enough since each attempt takes one. The two
-- loops that make the table of CRC-32 have fuel, 256 turns and 9; the theorem on crc32 states all entries of the table and so that this is enough.
--
-- A process is a record: a table of descriptors with the open file and the flags of each, the bytes
-- written to each open file, the ids, the directory and the program that it executes. A run takes the
-- answers of the system, one for each call: a result or an errno. What a successful call does to the
-- process is written out as Linux has it (`close` frees the descriptor also where it fails, `dup` and,
-- in ml_create_process, `pipe` give the lowest free descriptors, `exec` closes those marked close-on-exec, `putenv` replaces,
-- appends or removes a name); an answer that the system cannot give ends the run as `impossible`. Parent and child share
-- nothing but the pipe: the parent reads when the child has come to its end, and the order of their
-- other steps does not matter to either. Strings that go to the system have no null character. A
-- descriptor is not negative. An `fd_set` has 1024 bits, and FD_SET beyond them is a result of its own, as
-- are the stores outside of the arrays and buffers on the stack. The sizes that the code keeps in an `int`
-- are cut to 32 bits.
--
-- Not modelled: the branches for 32-bit hosts, the registration of exceptions, the values and the
-- exceptions as OCaml blocks, signal masks, the lock of the runtime, the memory of the vectors that
-- extended_ml_spawn allocates, the text that report_error writes (a parameter), the timeout and the mask
-- of pselect, and the stubs that only call the system or the runtime. int64_emul.h and int64_native.h of
-- base/bin_prot/lib are copies of headers of the OCaml runtime.
pub mod Prelude
pub mod Exec
pub mod Memory
pub mod Endian
pub mod Write
pub mod Read
pub mod RoundTrip
pub mod Bigarray
pub mod Bigstring
pub mod Channel
pub mod Crc
pub mod Pointers
pub mod Process
pub mod Unix
mod Examples
