-- ===== src/Lib.antt =====
-- Verification library for ConsoleApplication1: models of its core classes and the theorems that make
-- them correct.
--
-- The program is a collection of C++ classes around a proxy server. Modelled are:
--   * Multipart (ConsoleApplication1/multipart_parser.h and multipart_parser.cpp): the push parser for
--     multipart/form-data. Types has the object and its callbacks, Machine the function
--     `parser_data`, with a function for each group of cases of its switch, and Fields
--     `get_multipart_data`. Bytewise is an independent description, an automaton that reads one byte
--     at a time; Callbacks, Equivalence and Loop relate the two. Invariant, SafeSteps and Valid have
--     the invariant of the object, Body, Headers, Boundary and Message what a whole message is read
--     as, and Faults inputs on which the parser departs from the format.
--   * Ipdb (ConsoleApplication1/ipdb.hpp): the reader of the IP location file. Reader has the object,
--     `read_node`, `search` and `resolve`, Find `find_str`, `finds` and `find_map`, Split the function
--     `split`, Columns what the getters and texts of the four classes of records share, and City,
--     BaseStation, District and Idc these classes. Search relates the array of nodes to a tree, Mapped
--     the addresses of the two families, Record is about the texts behind the nodes, Lookup about the
--     map that is returned, and Lines about the texts of the classes of records. Utf8 has
--     `is_valid_utf8`, and Manage `get_ipdb_info` of manage_ipdb.hpp. The loading of the file is not
--     modelled but for the loop that finds the root of the IPv4 addresses.
--   * Json (ConsoleApplication1/string_stream.hpp and serialize.hpp): JSON text. Stream has the buffer
--     that is written to, Escape `write_str`; Token has the token and the object of `reader_t` with
--     `read`, `take` and `fill_escape_char`, Lexer the parser of strings in quotation marks, Next the
--     other parsers and `next`. Growth and Written are about the stream, Cursor, Filled, Quote,
--     QuoteLoop and RoundTrip about reading what was written, Faults about where that fails, and Kept,
--     Ends, NextEnds and Finish about the end of every loop. Number is about the digits of a number, and
--     Skip has the functions that skip a value. Values has `read_json` and Render `render_json_value` for
--     texts, unsigned numbers, `bool` and sequences; Serial joins the two for a type and has
--     `from_json_container`. Marks is about tokens of one character, Spoken about what a value that is
--     read as it was written has to satisfy, Leaves about texts and numbers, Sequences, Items and
--     Container about sequences, and ContainerFaults about those that are not read back.
--   * Queue (ConsoleApplication1/lock_free_queue.hpp): the queue of many producers and one consumer.
--     System has the nodes, the places where a thread stands in `enqueue` and `dequeue`, and their steps,
--     one shared access at a time; Order the chain of nodes that every step keeps, with Loads, Writes,
--     Exchange and Producers for the steps; Safety and Progress what follows for every order of steps. Whole has
--     `dequeue`, `empty` and the destructor as functions, and Destroy relates them to the steps.
--   * Packet (ConsoleApplication1/stream_format.hpp and msg.h): the writer of packets, and in Layout the
--     bytes that it leaves.
--   * Format (ConsoleApplication1/format.h): `util::format`, with Template about texts that are made of
--     pieces and Rounds about its loop, which runs on fuel, one more than the bytes that are left, and
--     is `none` where it is used up, which it never is.
--   * Base64 (ConsoleApplication1/b64_encrypt.h and b64_encrypt.cpp): `b64encode` and `b64decode`. Groups
--     is about four characters and the number they stand for, Blocks about the groups of three bytes of
--     a text, Tails about the one or two bytes behind them, RoundTrip about decoding what was encoded, and
--     Outside about bytes of 128 or more.
--   * Watcher (ConsoleApplication1/rdc_fs_watcher.h and rdc_fs_watcher.cpp): the watcher of directories. The
--     module itself has the entries, the members and `event_loop` as steps; Entries is about the map,
--     Calls about the calls that Windows has to complete, Kept and Untouched about what an operation
--     leaves as it is, Closing about all orders of steps and the end of the loop, and Lost about an entry
--     that no longer listens. Buffer has `process_notifications`, Layout is about the entries in the
--     buffer, and Names about long names. The callbacks are taken to be set.
--   * Session (ConsoleApplication1/http_session.hpp): the session that forwards requests to a server, with
--     its handlers, and in Forwarding what it writes in every order of completions.
-- Common holds the shared names: tests on numbers, lists over the native numbers, byte strings, maps,
-- integers, and in Bits the or of numbers.
--
-- Conventions. A byte is a number below 256, a `std::string` is a list of bytes, and a pointer into a
-- buffer is the list of bytes from it on. `char` is signed, as with the compiler of the project. What
-- C++ leaves undefined is an outcome of its own (`undefined`, `crashed`) or `none`, and theorems state
-- where it does not occur. The loop of `parser_data` runs on fuel, the size of the input, which is
-- enough because each round takes a byte at least; so does that of `is_valid_utf8`, whose rounds beyond
-- the number of bytes change nothing (Ipdb/Utf8, `utf8_loop-rounds`). `inet_pton`, the allocator and
-- `boost::locale::conv::between` are parameters, of which nothing is assumed but
-- that an allocation has the size asked for. A `double` is kept as the operations that made it.
--
-- In Queue, every shared access is one step, and the steps are sequentially consistent: the acquire and
-- release orders of the code, which are weaker, are not modelled. An address that was freed may be
-- allocated again. The loop of the destructor runs on fuel, one more than the values that are left.
--
-- In Watcher, what is done with the mutex held is one step, and so is a completion that Windows gives;
-- calls are completed in any order, and the answers of Windows are arguments. The loop over the
-- buffer runs on fuel, the size of the buffer, which is enough for what Windows writes (Watcher/Layout).
-- In Base64, `int` has 32 bits.
--
-- Not modelled: vendored copies of other libraries (nlohmann_json.hpp, doctest.hpp, WinReg.hpp,
-- binproto.hpp, shine_serial.hpp, BufferPtr.h, fields_alloc.hpp, multipartparser.cpp), the other calls
-- of the Windows API and of Boost.Asio, and drafts that are commented out. Also without a model are the
-- WebSocket sessions, the transports of the sessions, and of serialize.hpp the reading and writing of signed and floating
-- numbers, maps, tuples, arrays of a fixed size and reflected objects, and `to_json`, which for a
-- container of anything else does not compile. `xtoa`, of which it is assumed
-- that it writes digits, `strtoull` and the arithmetic of a `double` are parameters.
mod Common
pub mod Base64
pub mod Format
pub mod Ipdb
pub mod Json
pub mod Multipart
pub mod Packet
pub mod Queue
pub mod Session
pub mod Watcher
