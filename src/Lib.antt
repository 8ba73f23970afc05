-- ===== src/Lib.antt =====
-- A verification of the core of the recovery program: the parts that interpret update scripts and
-- that read and write package and firmware data.
--
-- edify (edify/expr.c, expr.h, parser.y), in Edify.antt and below. A Function of the C code, which
-- takes the State and returns a Value* or NULL, is a function into `Run` (Edify/State.antt): `done`
-- for a value, `null` for NULL, `fault` for an access out of bounds. `State` has the script, errmsg
-- and what the process prints and sleeps. Edify/Eval.antt has the values, the expressions (a function
-- pointer is the function itself) and ReadArgs with its variants, Edify/Builtins.antt the functions of
-- expr.c, Edify/Table.antt the function table, Edify/Grammar.antt the actions of parser.y on
-- derivations. A C string is the list of its bytes without the terminator; strtol, strstr and strcmp
-- are written out in Edify/Text.antt and Edify/Table.antt, with 32 bits for a `long`. malloc succeeds,
-- and free has no effect that a caller could see. The lexer and the generated parser are not modelled.
--
-- minzip (minzip/Hash.c, Zip.c, DirUtil.c), in Minzip.antt and below. The hash table is a record with the
-- list of its slots, and an operation returns no result where the C code would read out of bounds or loop
-- for ever. A walk has as many rounds as the table has slots, which is enough while one is empty; the invariant
-- `IsValid` (Minzip/Hash/Valid.antt) keeps one empty. An item is its address. The counters are taken
-- to stay in the range of an `int`, and the sizes that are asked for to be at most 2 ^ 30.
-- Minzip/Zip.antt has the archive reader (minzip/Zip.c): the mapping is a list of bytes, a pointer into it
-- the number of a byte, `base` where it lies among the 2 ^ 32 addresses; `done`, `bail` for `goto bail` and
-- `fault` for an access outside of the mapping. A long is kept as its pattern of 32 bits. The theorems take
-- the mapping to end 2 ^ 18 bytes below the top, so that a pointer to the next header does not wrap.
-- safe_add (safe_iop) is the record `SafeAdd`. The loop over the headers is structural, in the number of
-- entries, and so is the binary search: as many rounds as entries are enough. An item of the hash table is
-- the number of an entry.
-- Minzip/Contents.antt and below: the contents of entries. `Descriptor` is the archive's descriptor, `Zlib`
-- inflateInit2 and inflate, a function that takes contents is a `Process`; `outside` stands for an access
-- outside of an array, `endless` for more rounds than were allowed. As many rounds as bytes are enough for
-- a stored entry, and for a deflated one of n compressed bytes n + 1032 * (n + 1) and one, for a zlib that
-- gives at most 1032 bytes for a byte.
-- Minzip/Contents/Taken.antt has the functions that copy, write and check. Minzip/Dirs.antt has
-- dirCreateHierarchy (minzip/DirUtil.c) over a record `FileSystem` of calls; Minzip/Extract.antt
-- mzExtractRecursive and targetEntryPath, `called` being what the callback was called with. What memory
-- from malloc holds is an argument. mzCloseZipArchive, SysUtil.c, and the functions of DirUtil.c that
-- delete a hierarchy or set its permissions are not modelled.
--
-- applypatch (applypatch/bspatch.c, applypatch.c, utils.c, freecache.c and offtout of bsdiff.c), in
-- Applypatch.antt and below. Applypatch/Utils.antt has the little-endian numbers, Applypatch/Sha1.antt
-- the digests in hex digits, Applypatch/Sink.antt the writing to a file, whose answers are a list.
-- Applypatch/Bspatch.antt has the patches: bzip2 is a record `Decompressor` with the law of a call that
-- has room; FillBuffer and the loop of ApplyBSDiffPatchMem run on fuel, for a round of BZ2_bzDecompress
-- each and for a triple each, and `never` stands for what takes longer. An off_t and a long
-- have 32 bits: `to_long` is what they make of a number. `fill_beyond` is FillBuffer on more than a buffer
-- has room for, where a length is negative. As much fuel as bytes to fill
-- and as many rounds as triples are enough, where the streams hold what is asked for.
-- Applypatch/FreeCache.antt has the deletion of files of the cache partition over a record `Os` of what
-- the operating system answers.
-- Applypatch/World.antt is what applypatch.c runs on: a disk, a function from names to contents, with
-- every earlier state of it since the start, the writing of a file being seen byte by byte; and a record
-- `Kernel` of what each system call answers in each state. A program is a function from a World to a
-- World and an Outcome: a result, an exit with the value of the function, or a fault. Applypatch/Files.antt
-- has loading, saving and writing to a partition, Applypatch/Apply.antt has applypatch: `choose` picks the
-- source or its copy, `rounds` is the loop, of two rounds at most, which needs no fuel, `finish` is what
-- follows. `data` is NULL, a buffer or a freed buffer. `masked_data` is retouch_mask_data as LoadFileContents
-- calls it, `run_patch` what the decoder of a patch gives to the sink, which is then written: for a binary
-- patch ApplyBSDiffPatchMem. SHA_hash, bzip2, the rounds of its loops and ApplyImagePatch (imgpatch.c) are
-- the record `Tools`; a round whose write stops early fails as the decoder does. The mode and the owner of a file are not kept.
--
-- mounts.c, in Mounts.antt and below: the table of 32 entries, `fault` for a write past its end. The
-- bytes of /proc/mounts, of which a scan reads 2047, sscanf and umount are arguments. bootloader.c, in Bootloader.antt: a record
-- `Device` has the calls on the device of /misc; wait_for_device, which only spends time, stands alone.
--
-- minelf/Retouch.c, in Retouch.antt and below: the decoder of relocation lists, whose two static
-- variables are the record `Decoder`, and retouch_mask_data in Retouch/Mask.antt, over the bytes of a file;
-- its loop runs on fuel for an entry each, and as much fuel as bytes is enough.
--
-- console.c, in Console.antt and below: the two matrices are functions of row and column, and an operation
-- has no result where the C code would write outside of a matrix, of the buffer of escape sequences or of
-- the parameters, or where an int overflows in an escape sequence. Console/Escape.antt has the escape
-- sequences, Console/Print.antt ui_console_print and the scrolling, Console/Scrollback.antt the terminal
-- without an end that the matrices are compared with, Console/Session.antt the sequences of texts and
-- scrolling. The counters of rows are taken to stay in the range of an int, and
-- num_rows to be no negative number; drawing and locking are left out.
--
-- Not modelled: the user interface, the graphics, the sideloader, the updater's functions,
-- the terminal of the console, retouch_one_library, and the parts that only call the kernel.
pub mod Base
pub mod Edify
pub mod Minzip
pub mod Applypatch
pub mod Mounts
pub mod Bootloader
pub mod Retouch
pub mod Console
