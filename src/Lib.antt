-- ===== src/Lib.antt =====
-- A verification library for libnih, a C library of small parts for system daemons: lists, hash
-- tables, strings, a configuration file parser and buffered input and output (nih/), a D-Bus
-- binding (nih-dbus/), and a generator of C code for D-Bus interfaces (nih-dbus-tool/).
--
-- The parts and the files that model them:
--
-- nih/list.c, nih/list.h: Ring.antt. A `Heap` gives the `prev` and `next` of every entry, and
-- list_init, list_new, list_entry_new, list_cut, list_add, list_add_after, list_remove and
-- list_destroy are the functions of those names, one assignment after the other. Ring/Segment.antt
-- says which entries NIH_LIST_FOREACH visits (`RingOf`), Ring/Links.antt that the pointers are
-- inverse (`Linked`), Ring/Move.antt what each operation does to the lists it touches.
--
-- nih/hash.c, nih/hash.h: Hash.antt. `Hash` is NihHash; its bins are lists of that heap, at
-- consecutive addresses, and its key, hash and comparison functions are fields, as in the source.
-- An entry that is added leaves the list it was in, since the functions call those of nih/list.c.
-- Hash/Text.antt has the functions for string keys. The loops over a bin run for a number of
-- rounds that is an argument, and the theorems show that more rounds than the bin has entries are
-- enough.
--
-- nih/tree.c, nih/tree.h: Tree.antt, with the `parent`, `left` and `right` of every node and the
-- functions that link nodes. Tree/Links.antt says that parents and children point to each other
-- (`Linked`); Tree/Visit.antt has the six traversals with their filter, whose loops run for a number
-- of rounds, and its children prove each of them against the tree as a recursive shape.
--
-- nih/alloc.c, nih/alloc.h: Alloc.antt. A `Heap` has for every object the list of the references to
-- it (`parents`) and of those from it (`children`), for every reference its two ends, and logs the
-- destructors called and the memory freed. Alloc/Sound.antt is the invariant, `Sound`; between two
-- calls nothing is in `work` and `loose` is NULL. The lists are sequences of references here: that
-- the operations of nih/list.c act on them so is what Ring/Move.antt shows. The loop of
-- nih_alloc_context_free runs for a number of rounds; `refs_of`, the number of references to
-- children of the objects that a list covers, is enough.
--
-- nih/error.c, nih/error.h: Error.antt. `State` has the stack of contexts, from the current one to
-- the default one, and what is stored at an error's address; an `Outcome` is a call that returns, a
-- failed assertion, or the abort for an unhandled error. `call` and `run` are what a program does.
--
-- nih/timer.c, nih/timer.h: Timer.antt. `Timers` has the list of timers and their fields. A callback
-- is the calls of nih/error.c that it makes, which are run between the push and the pop of a context
-- as in the source, and its changes of the list; Timer/Settled.antt and Timer/Polled.antt show what a
-- poll does. Its loop runs for a number of rounds; `weight`, the timers in the list and the changes
-- that their callbacks make, is enough.
--
-- nih/io.c, nih/io.h, the buffers and what goes through them: Io.antt and Io/Buffer.antt, with the memory of a buffer, the
-- rounding to BUFSIZ and the arithmetic of size_t. Io/Buffer/History.antt runs sequences of calls.
-- Io/Stream.antt reads from and writes to an `Io`, NihIo, whose close handler is a count of its calls.
--
-- nih/string.c, but for nih_str_wrap and the screen width: Strings.antt, with the arrays of strings in
-- Strings/Array.antt and nih_str_split in Strings/Split.antt, whose loop runs for as many rounds as
-- the string has bytes.
--
-- nih/config.c, nih/config.h: Config.antt. The parser keeps a position and a line number in the
-- file, `Cursor`, which the functions take and return with their result. Config/Token.antt is
-- nih_config_token, Config/Scan.antt the functions that find line ends, comments and block
-- markers, Config/Args.antt next_token, next_arg, parse_args and parse_command, Config/Block.antt
-- the two functions for blocks, with the memory that a block is copied to, Config/Stanza.antt the stanza table and parse_file. `Tracks`, of
-- Config/Tracks.antt, says that the line number has gone up by the line ends passed.
--
-- nih-dbus/dbus_util.c: BusPath.antt, nih_dbus_path with the memory that it writes to, in the two
-- passes of the source. A char is taken to be signed.
--
-- nih-dbus-tool/symbol.c: Symbol.antt, with the names that the generator makes. symbol_from_name
-- writes to the memory that it allocates; the other functions build on those of Strings.antt. `Gives` says that a function returns a string, or fails because an
-- allocation did.
--
-- nih-dbus-tool/indent.c: Indent.antt. The two functions share their loops there, with what each puts
-- in front of a line as `Marks`; Indent/Memory.antt and Indent/Whole.antt show that the memory asked for is filled exactly, and
-- Indent/Lines.antt with which lines. The assertion on the level is a case of `indent`.
--
-- Conventions. A byte is a number below 256 and an array of bytes a list; a C string is such a
-- list without its terminator, and NULL is `none`, or 0 for a pointer. The pointers that a
-- function asserts not to be NULL are taken not to be, but for objects in Alloc.antt and errors in
-- Error.antt. A destructor that changes
-- other objects, or raises an error, is not modelled. Whether an allocation succeeds is a
-- parameter, a function of the size where the size is known; freeing has no effect on the
-- model, but in Alloc.antt, Error.antt and Timer.antt.
-- An argument `lineno` or `pos` that a caller may leave NULL is always kept. Where a result is an
-- `Option` of the function's own result, `none` stands for a failed assertion, a write outside of
-- memory, or a loop that has run out of rounds, and the theorems say that it does not come up, or
-- when it does. The loops of the parser that do not go over the file byte by byte run for as many
-- rounds as bytes are left and one more, which is enough since every round moves on.
--
-- Not modelled: nih/signal.c, child.c, watch.c, main.c, logging.c, option.c, command.c and
-- file.c, and the watches and the descriptors of nih/io.c; the other files of nih-dbus/; and the
-- other files of nih-dbus-tool/. Much of these calls the operating system, the D-Bus library or
-- the XML parser. What vsnprintf, strcmp, BUFSIZ and the allocator do is the C library's.
pub mod Alloc
pub mod BusPath
pub mod CString
pub mod Config
pub mod Error
pub mod Hash
pub mod Indent
pub mod Io
pub mod Prelude
pub mod Ring
pub mod Strings
pub mod Symbol
pub mod Timer
pub mod Tree
