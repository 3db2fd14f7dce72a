-- ===== src/Lib.antt =====
-- Pagebox, a storage engine of Rust crates: a slotted page format under a B+tree, a buffer pool whose
-- page references are tagged words, a hybrid latch on every frame, page mutations that a write-ahead
-- log records, and an allocator of free pages.
--
-- The parts, and the files that model them:
--   Slotted    crates/storage/src/slotted_page.rs. Slotted/Layout.antt has the header, the slots, the
--              bytes and the accessors, the list of entries that a page stands for, and the validity
--              invariant; Slotted/Ops.antt has insert, remove, truncate, compactify,
--              update_value_if_same_length and the bulk copy; Slotted/Logged.antt has the variants that
--              add what they change to a page mutation; Slotted/Search.antt has the four binary
--              searches. The other files of the folder prove. A page operation is a
--              function from a page to an Option of one: none is a panic, or, in the try_ searches,
--              the answer that the page looks torn.
--   Bytes      the memory that a page is: a function from addresses to bytes, with reads, writes and
--              the big-endian order of keys (cmp_keys, read_be_u64, make_head), little-endian fields, and
--              slices of byte vectors.
--   Latch      crates/hybrid-latch. Latch/Word.antt has helpers.rs function by function over the 64-bit
--              version word; Latch/System.antt has latch.rs as a step relation, one step per atomic
--              access of the version word or of the inner lock, by any thread, so that a sequence of
--              steps is an interleaving; the load and the store of the version with which a writer
--              enters are one step, since it holds the inner lock. The read-write lock of parking_lot is the record RawRwLock:
--              its states and tries are a parameter, and its laws are what its documentation says.
--   Mutation   PageMutation of crates/storage/src/buffer_pool.rs: the changed byte ranges of a page.
--   Swip       crates/swip-kernel: state.rs and word.rs, the tagged page references.
--   Freelist   crates/storage/src/free_page_allocator.rs: the extents, the central best-fit list with its
--              coalescing insert, the shards with their buckets and reserved ranges, and the allocator;
--              each call is run to its end by one thread, and none is a panic.
--   Frame      crates/frame-kernel: the frame state machine, the atomic state byte and pin count as
--              functions on the value of the cell, the core header, and the page ids.
--   Header     crates/storage/src/page_header.rs: the page type in the flags of every page.
--   Wal        crates/wal/src/format.rs and crates/wal/src/wal_impl.rs. Wal/Capacity.antt has the sizes of
--              the append buffers; Wal/Batch.antt the metadata page of a batch and the file header;
--              Wal/Patch.antt the page patches; Wal/Records.antt the entries, their check and the packed
--              logical records; Wal/Append.antt the appends of one shard, over the list of its slots;
--              Wal/Replay.antt replay_records; Wal/Recovery.antt the recovery of records into a page
--              store, with the trait of the store as a record of its operations; Wal/Submitted.antt the window of submitted writes; Wal/Lsn.antt the
--              claimed LSNs and the handles of buffered records. The CRC, a third-party crate, is a
--              parameter: any function of the bytes. The other files prove.
--   Store      crates/storage/src/page_store.rs: the header page of a page store file (Store/Header.antt).
--   Btree      crates/btree/src: btree/node.rs, the tree nodes over slotted pages with the swips and siblings in
--              their reserved suffix, and the routing of a key through an inner node (Btree/Node.antt);
--              parent_edge.rs and split_publish.rs, the edges of an inner node (Btree/Edge.antt); of btree.rs,
--              how an entry is put into a latched leaf (Btree/Leaf.antt: leaf_insert_bound,
--              try_insert_leaf, try_upsert_leaf, with ExclusiveNode of node.rs, its page, its mutation and
--              what it hands to the frame), what a split writes to the pages of a node and of its sibling
--              (Btree/Split.antt: split_node, split_single_entry_leaf), and what a merge writes to the left
--              page (Btree/Merge.antt: leaf_pair_fits, merge_leaf_pages_into_left, inner_pair_fits,
--              merge_inner_pages_into_left), and how a split is published in a latched parent
--              (Btree/Publish.antt: apply_split_to_latched_parent). The other files of the folder prove.
--   Base       what the modules share: the libraries' names, Boolean tests, lists over the native
--              numbers, and bit operations by halves.
--
-- How they interact: the buffer pool holds pages in frames, reaches them through swips, guards them
-- with latches, and logs the ranges of a page mutation after a change of a slotted page. Slotted/Logged
-- uses Mutation/Ranges as the code does, Btree/Node the searches of Slotted/Search, and Btree/Leaf, Btree/Split,
-- Btree/Merge and Btree/Publish the operations of Slotted/Ops and Slotted/Logged; the other parts meet in the buffer pool
-- only.
--
-- Bounds and fuel: PAGE_SIZE is the default 65536 bytes. Slot fields of 16 bits are written with their
-- wrap-around, `% 65536`; sums of page numbers that the code checks panic past 2 ^ 64 - 1. The loop of
-- a binary search takes one more unit of fuel than the page has slots, which is enough since each turn
-- shrinks the interval. The version word of the latch and the word of a swip are numbers below 2 ^ 64,
-- and the operations on their bits are the native ones. The loop over packed records has as much fuel
-- as there are bytes, and every round that goes on takes twenty bytes at least.
--
-- Not modelled: the buffer pool; the reads and writes of the page store; of the B+tree (btree.rs), the descents
-- with their latches and restarts, the search for the parent of a split, the copy of a split root into
-- two new children, the choice of neighbours to merge and their unlinking, and scans; the key-value store
-- above these parts; of the log, where its pages stand in
-- the file, overwriting in the buffer, the collecting and sorting of the records of all shards, and
-- waiting for durability; memory orderings weaker than one order of all accesses; contention metrics,
-- statistics counters and spinning; the benchmarks.
pub mod Base
pub mod Btree
pub mod Bytes
pub mod Frame
pub mod Freelist
pub mod Header
pub mod Latch
pub mod Mutation
pub mod Slotted
pub mod Store
pub mod Swip
pub mod Wal
