-- ===== src/Lib.antt =====
-- ReplicaWBCache: buffers, their lists, and the small libraries they stand on.
--
-- The program's core is a C++ library of reference-counted buffers. A `raw` is a piece of memory,
-- a `ptr` is a window into one, and a `list` is a chain of windows with a cached tail into which
-- it appends. Beside it stand a base64 codec, a time of seconds and nanoseconds, integer
-- rounding, deleters, memory pools, compact containers, and reads and writes that survive
-- interrupts. The parts and the files that model them:
--
-- - Buffer/Store.antt: include/buffer/buffer_raw.h, buffer_raw_combined.h,
--   buffer_raw_posix_aligned.h, common/buffer/buffer_create.cc. The store is the sequence of all
--   raw buffers; `raw*` is an index into it, `posix_memalign` is an argument (Allocator), and so
--   are the page size and the layout of raw_combined (Platform). Operations are runs of a state
--   monad whose errors are the exceptions, the failed assertions, and `bad_access` for a use of
--   memory that the program does not own.
-- - Buffer/Ptr.antt: include/buffer/buffer_ptr.h and common/buffer/buffer_ptr.cc. `m_raw`, `m_off`
--   and `m_len` are fields; c_str() + k is the byte k behind `m_off`. Ptr/Access.antt says what a
--   window holds and which changes of the store keep it, Ptr/Write.antt what a write does,
--   Ptr/Cut.antt what a window of a window holds; Ptr/Walk.antt has the iterator.
-- - Buffer/Blist.antt: include/buffer/buffer_list.h and common/buffer/buffer_list.cc. `_buffers`
--   is the sequence of its nodes, `_tail_pnode_cache` the address of one of them, or none.
--   Blist/Contents.antt has the bytes of a list and its invariant: the windows lie within their
--   raw buffers, the addresses differ, the cached node owns the tail of its raw buffer, and the
--   counters count. Blist/Append.antt has the operations that append, Blist/Edit.antt those that
--   read, cut and zero, Blist/Iter.antt the iterators, Blist/Query.antt comparisons and checksums,
--   Blist/Rebuild.antt rebuilding and base64; their child modules have the theorems. For base64,
--   Rebuild/Reads.antt has c_str(), Rebuild/Puts.antt the new node and Rebuild/Encodes.antt both.
-- - Buffer/Links.antt: `buffers_t` of include/buffer/buffer_list.h, the ring of hooks under a list,
--   with its pointers: memory is the `next` of every address. Links/Chain.antt says what a ring
--   holds, Links/Ops.antt and Links/Steps.antt compare its operations with those on sequences,
--   Links/Roots.antt, Links/Pairs.antt and Links/Joins.antt those on two rings.
-- - Crc.antt: common/crc32/crc32c.cc and include/crc32/crc32c.h, with the table in Crc/Turbo.antt.
--   Crc/Linear.antt has the checksum as a linear map, Crc/Zeros.antt the loops over the table,
--   Crc/Restart.antt what list::crc32c uses of it. `crc32c_func` is an argument.
-- - Mempool.antt: include/mempool/mempool.h. Mempool/Totals.antt sums the shards, Mempool/Counts.antt
--   runs any calls by any threads, Mempool/Raws.antt has what include/buffer/buffer_raw.h tells
--   the pools.
-- - Armor.antt: common/encode/armor.c. Armor/Encode.antt compares the encoder with groups in
--   arithmetic, Armor/Rfc.antt those with RFC 4648 and its alphabet, Armor/RoundTrip.antt decodes
--   what was encoded.
-- - Utime.antt: include/time/utime.h, with Utime/Arith.antt and Utime/Order.antt.
-- - Intarith.antt: include/intarith.h, with Intarith/Rounding.antt and, for its masks,
--   Intarith/Powers.antt.
-- - Deleter.antt: include/deleter.h. Deleter/Owns.antt says what a deleter owns, Deleter/Destroy.antt,
--   Deleter/Shares.antt, Deleter/Appends.antt and Deleter/Both.antt what its destructor, its shares
--   and append do with it. A destructor's fuel is one more than the impls, append's three more.
-- - InlineMemory.antt: include/inline_memory.h, with InlineMemory/Zeros.antt and
--   InlineMemory/Copies.antt; a list's is_zero uses what the first shows.
-- - Compact.antt: include/compact_map.h over any container of the standard library (Container).
--   Compact/Ops.antt runs a caller's operations on two of them and on two such containers,
--   Compact/Looks.antt and Compact/Runs.antt compare what both show and return, Compact/Std.antt
--   is std::set of numbers.
-- - SafeIo.antt: common/safe_io.c, with SafeIo/Transfers.antt. The kernel is a script of answers.
--   SafeIo/Files.antt has its functions on whole files, on a directory of the file and its
--   temporary file, SafeIo/Files/Atomic.antt and SafeIo/Files/Working.antt what they leave.
-- - Prelude.antt: Boolean tests, lists measured by native numbers, results, slices, tables and
--   the laws of exclusive or and of masks.
-- - Examples.antt: the theorems at concrete inputs.
--
-- Numbers are natural numbers. Where a caller's offset and length, an address or a rounded size can
-- wrap, the sum is taken modulo 2^64 (`u64`) or 2^32 (`u32`). A list's `_len` and `_num`, and sums
-- over windows that lie within their raw buffers, are not: they count bytes and nodes that are in
-- memory. Sizes of raw buffers are below 2^64. Walks over a list are structural recursion over its
-- nodes. The loops of the iterators run on fuel, one turn for each node and one more, since a turn
-- leaves a node behind or is the last; contents_equal runs on as many turns as it is given, since
-- the source need not end.
--
-- Not modelled: a raw buffer's reference counts (it stays in the store), locks, text output, a
-- list's files and vectored writes, floating point, the checksum code of other projects
-- (`crc32c_func` is an argument), CPU probing, assertions' diagnostics, and include/compact_set.h,
-- which repeats compact_map.h.
pub mod Prelude
pub mod SafeIo
pub mod Armor
pub mod Buffer
pub mod Examples
pub mod InlineMemory
pub mod Deleter
pub mod Compact
pub mod Intarith
pub mod Utime
pub mod Crc
pub mod Mempool
