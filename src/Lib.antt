-- ===== src/Lib.antt =====
-- libkit: a verification library for the C utility library of this repository.
--
-- The program is a set of small C libraries. lib-kit holds what Umbrella's resolvers share: codecs,
-- sorted arrays, identifiers, number parsing, bit tricks. lib-sxe-* hold the older sxe layer: lists,
-- pools, hashes, strings, logging and the jitson value store. The parts call one another through
-- plain functions over caller-owned buffers; few of them keep state of their own.
--
-- What is modelled, and where:
--
--   lib-kit/kit-base-encode.c    BaseEncode. `Tables` has the six translation tables and `Config` the
--       configurations `struct basecfg`; `Encode.encode` and `Decode.decode` are the functions of
--       those names, with the buffer, the counters `*olen` and `*ilen` and the error returns; `Api`
--       has the public functions. `Shift`, `Encodes`, `EncodeLoops`, `EncodePads`,
--       `EncodeEnd`, `Decodes`, `DecodeLoop`, `DecodeEnd`, `RoundTrip` and `Codecs` carry the proofs.
--   lib-kit/kit-sortedarray.c    SortedArray. `Defs` has `kit_sortedarray_find_key`, `add_elem`,
--       `get_elem` and `delete_elem` over a memory of slots; `Order` says what a comparison function
--       and a sorted array are. `Intersect` has `kit_sortedarray_intersect` over elements at addresses,
--       `Matching` the search through all elements that `Intersected` compares it with, by `Cuts`;
--       `Deprecated` has the older interfaces.
--
--   lib-sxe-util/sxe-hex.c       SxeHex. `Defs` has the tables and the functions; `Read` compares the
--       numbers read with positional notation, `Bytes` has the text of bytes and back.
--   lib-kit/kit-guid.c           Guid. `Defs` uses SxeHex; `Text` has the texts of identifiers and
--       `Order` their comparison. `memcmp` and `strlen` are the C library's.
--   lib-sxe-util/sxe-unsigned.c  SxeUnsigned: the tables and both functions, and `Laws` on them; `Align` is on
--       `sxe_uint64_align` of lib-sxe-util/sxe-uint64.c.
--   lib-sxe-util/sxe-rot13.c     SxeRot13. `Defs` has the tables and the functions, `Laws` the turning
--       in place and the numbers, by way of SxeHex, and `Copy` the copying function.
--   lib-sxe-jitson/sxe-unicode.c SxeUnicode: the encoder, and in `Laws` a decoder for it.
--   lib-kit/kit-bits.h, kit-bits.c  KitBits: masks whose bit 0 is the highest of the first byte; `Laws`
--       is on setting and clearing a bit, `Copy` on copying bits.
--   lib-sxe-list/                SxeList. `Defs` has the lists and their walkers over a memory of nodes;
--       `Linked` and `Holds` say what a list holds, `Ends`, `Removal` and `Walk` are on the operations,
--       `Deque` compares runs of them with runs on a sequence, and `Apart` is on what they leave alone.
--   lib-sxe-pool/                SxePool, on SxeList. `Defs` has the layout of a pool and `Moves` what its
--       callers do; `Queues`, `Joins`, `Valid`, `Change` and `Stays` are on moving an element, `Construct`
--       and `Fill` on a new pool, and `Results`, `Try` and `New` on the public functions. `Walkers`
--       has the walker of a state, `Walked` its walk over a pool that stays as it is, and `Rewalked` its
--       step from an element that has moved away.
--   lib-sxe-hash/sxe-hash.c      SxeHash, on SxePool: a bucket is a state of the pool. `Valid` says when a
--       hash is in order, `Look` is on the search, `Changes` on taking, adding and giving, `Added` on the
--       search after adding, and `New` on making a hash.
--   lib-sxe-dict/sxe-dict.c      SxeDict. `Defs` has the dictionary and its operations, with a bucket as the
--       chain of its nodes and the value NULL as 0; a pointer to a value is the bucket and which node of it.
--       The request for a node's copy of a key, which is not tested, can be denied, and memory has any bytes
--       past the copy; keys that are not copied stay as they are.
--       `Keys` is on what a key is, apart from the three ways it is kept, `Chains` on lists of nodes, `Valid`
--       on what it is for a dictionary to be in order, `Resize` on growth, `Lookups` on the search, `Add` and
--       `Entries` on additions, `Asking` on the pointer and length that a caller gives, `Runs` on sequences
--       of calls, `Bounded` on dictionaries as `sxe_dict_new` makes them, and `Walk` on `sxe_dict_walk`, whose
--       function is a parameter.
--   lib-sxe-util/sxe-str.c, lib-sxe-log/sxe-str-encode.c, lib-sxe-log/sxe-strlcpy.c    SxeStr. `Encode` has
--       `sxe_strn_encode` and `Encoded` what it writes, `Copy` has `strlcpy` and `strlcat` and `Copied` what
--       they leave, and `Search` the searches, whose results are offsets from the pointer they are given.
--       The C library's character classes and lower case are parameters.
--
-- How C is read. A byte or a word is a natural number with the wrap-around of its width written out
-- (`u8`, `u32`); a shift is a product or a quotient by a power of two; a buffer is a list of cells
-- and a write past its end has no effect, so that the theorems on bounds look at the cells and not at
-- the list. An array of elements is a function from slots. A loop that takes a known number of rounds
-- recurses on that number, which is written out where the loop is called: the rounds of `drain` are
-- the bits in hand, `pad` takes at most eight, and the binary search as many as it has slots, which is
-- more than it needs because every round halves the range. The theorems state results, so none of the
-- bounds can hide a loop that stops too soon. Debug assertions (SXEA1, SXEA6, assert) are left out
-- unless a definition says otherwise. The allocator and the comparison function of a class are
-- parameters. A relative pointer is written as the address
-- that SXE_PTR_FIX makes of it, and the structures have the sizes of a system with 64-bit pointers. Whether
-- a spinlock can be taken, and the time, are arguments of the operation that asks; an assertion that stays
-- in the release build (SXEA1) ends an operation of a pool or a hash as `aborted`. The loops over a state's
-- elements take one round more than its list has nodes. A hash function and `kit_malloc` are parameters.
--
-- Not modelled: everything whose work is done by the system or another library (logging sinks,
-- threads, mmap, file events, sockets, time zones, jemalloc's statistics), the copies of third-party
-- code (lib-tzcode, md5, lookup3, kit-queue.h), the comparisons of lib-kit/kit-bits.c, device ids, number
-- parsing, `sxe_str_to_printable`, tensors, and of the sxe layer the names, allocation and timeouts of pools, the
-- other hash functions, the constant database and jitson apart from its UTF-8 encoder.
pub mod Common
pub mod BaseEncode
pub mod SortedArray
pub mod SxeHex
pub mod Guid
pub mod SxeUnsigned
pub mod SxeRot13
pub mod SxeUnicode
pub mod KitBits
pub mod SxeList
pub mod SxePool
pub mod SxeHash
pub mod SxeDict
pub mod SxeStr
