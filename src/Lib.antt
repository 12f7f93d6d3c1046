-- ===== src/Lib.antt =====
-- Verification of the Python vector indexes of this repository (indexes/python), and of its
-- in-process embedding caches (tools/cache).
--
-- The program. An index holds the rows of a corpus and answers a query with the k rows of the highest
-- dot product, best first, ties to the lower row ID, padded with -1. Rows can be deleted by a mask
-- (tombstones), overwritten, and compacted away; a search can be limited to the rows that pass a
-- metadata filter; an index can be written to a .vro file that every language port reads.
--
-- Which file models which part:
-- - Prelude: shared names, lists over native numbers, stable sorting, one-dimensional arrays
--   (`a[idx]` is gather, `a[mask]` is compress, `a[idx] = v` is scatter), results that may raise.
-- - Numpy: what is used of numpy's dot products, sorts and partitions. They are the fields of a record
--   that the models take as a parameter, with numpy's documented behaviour as laws;
--   Numpy.Reference gives a concrete instance. A score is the position of a float32 value in their
--   order, so that -score orders scores the other way, and -inf is 0.
-- - Distance: distance.py. Distance.Best says what a ranking is to be.
-- - Splitmix: splitmix.py, with 64-bit wrap-around.
-- - Files: the arrays of the data directory, a parameter. Changes: changes.py. Filters: filters.py.
-- - Flat: flat.py. The dict of the index is a record; a missing key is `none`. Flat.Selection says which
--   rows a search is to see; Flat.Valid says when an index is well-formed; Flat.Saved is `save` and
--   `load`, and Flat.Saved.Restored says what is to be written.
-- - Ivf: ivf.py behind the training of the centers, which are an argument; Ivf.Saved is `save` and
--   `load`. Ivf.Buckets is the cutting of a sorted list at its counts; Ivf.Compaction says when an
--   index is listed, Ivf.Listed and Ivf.Invariant that it stays so; Ivf.Nearest says what the center of a
--   row is to be. A mask is to have an entry for every row.
-- - Vro: vro.py. A file is its list of bytes. The JSON text of the header is a parameter (dumps and
--   loads). The loop of `write` runs on fuel, and Vro.Layout proves how much is enough.
-- - Kmeans: kmeans.py. The arithmetic of float32 rows is a parameter, Arith. The draws of `init_centers`
--   run on fuel, a number of draws that the caller gives. Kmeans.Counts, Moves and Fixed lead up to
--   Kmeans.NoEmpty, on `fix_empty`; Kmeans.Returns is about the loop.
-- - Pq: pq.py, over Kmeans. IvfPq: ivf_pq.py, over Pq, Kmeans and Ivf.
-- - Hnsw: hnsw.py. A layer of the graph is a list of optional neighbor lists; a heap of heapq is
--   the sorted list of its items. Hnsw.Layer has `greedy` and both layer searches; Hnsw.Select
--   the choice of neighbors; Hnsw.Graph the levels and `insert`; Hnsw.Repair the repair pass;
--   Hnsw.Frozen the arrays, `freeze`, `thaw` and inserts into the arrays; Hnsw.Changes
--   `_pick_entry`, `_update_nodes` and `_refill`; Hnsw.Index `build` and `search`; Hnsw.Edits the
--   operations that change an index; Hnsw.Saved `clone`, `save` and `load`. The level of a random
--   draw is a parameter, LevelOf, since it is a logarithm of floats. `greedy` runs on fuel of one
--   round for each row, the layer searches on one for each row and entry point, and the search
--   for unreachable rows on one for each row: these are the most rounds that their loops make,
--   the layer searches where no list names a row twice. Locks are left out: an operation is one
--   step.
-- - Bytes: arrays of float32 and int32 values as they stand in a file. The bytes of a float32 row are a
--   parameter, Floats, of which only the way back is known; a negative int32 is `none`.
-- - Diskann: diskann.py. Diskann has the medoid and the random first graph, Diskann.Greedy, Prune and
--   Passes the methods of `_Builder`, Diskann.Disk the records of the file and both ways to read them,
--   Diskann.Index `build`, `_reader` and `index_bytes`, Diskann.Search the beam search. The file is its
--   content. What numpy does with the distances and alpha is a parameter, Metric. A row of the first graph
--   gets a number of draws that the caller gives, and `build` is `none` where they run out. `greedy`
--   runs on one round for each row, and the loop of `search` on one round more than there are rows: a
--   round expands a row, and no row is expanded twice. `search` is `none` where its rounds run out.
-- - Npy: npy.py. A file is its list of bytes, `ast.literal_eval` is a parameter, and the items of an
--   array stay bytes.
-- - Cache: the in-process caches of tools/cache/cache.py; Cache.Recency is what the LRU cache keeps.
--   The conversion of a vector to float32 is an argument of `put`.
-- - Tests: runs at concrete inputs.
--
-- How the parts interact: Flat and Ivf select rows by the masks of Filters, score them through
-- Numpy's dot product, and rank them by Distance.top_k. A mask that a search reads is taken from
-- Filters.Memo.mask_of, which is `mask` without its memo; Filters.Memo relates the two.
--
-- An index is saved as the sections of a Vro file, with its rows and edges as Bytes. Diskann takes its
-- codes and its tables from Pq, its first graph from Splitmix.
--
-- Not modelled: timings, locks, the path and the cached pages of the file of diskann, the Redis backend
-- of the cache, the bench commands, the other tools and the ports to Go, C++ and Rust.
pub mod Prelude
pub mod Numpy
pub mod Distance
pub mod Splitmix
pub mod Files
pub mod Bytes
pub mod Npy
pub mod Changes
pub mod Filters
pub mod Flat
pub mod Vro
pub mod Kmeans
pub mod Pq
pub mod Ivf
pub mod IvfPq
pub mod Hnsw
pub mod Diskann
pub mod Cache
mod Tests
