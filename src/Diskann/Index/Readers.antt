-- ===== src/Diskann/Index/Readers.antt =====
-- `_reader` of diskann.py after an `io` that it refuses.
use vector_retrieval_optimiz.Prelude.{
  ◌≡◌, refl, ap, ◌∙◌, true, false, ◌&&◌, String, none, some, raise, value_error, str_eq, Bool-cases,
  Option-cases, inl, inr, if◌then◌else◌,
}
use vector_retrieval_optimiz.Numpy.{Numpy}
use vector_retrieval_optimiz.Kmeans.{Arith}
use vector_retrieval_optimiz.Bytes.{Floats}
use vector_retrieval_optimiz.Diskann.{Metric}
use vector_retrieval_optimiz.Diskann.Index.{Index, opened, without, was_mapped, reader}

module _ (np : Numpy) (arith_ops : Arith np) (mt : Metric) (fl : Floats np) where
  -- Whatever the reader, the call stores its `io`, and it evicts by its test.
  reader-stores :
      (index : Index np.Vec) (io : String)
      → let call = reader np arith_ops mt fl index io in
        (call.1 ≡ (str_eq io "nocache" && was_mapped index.last_io)) × (call.0.last_io ≡ some io)
  unfolding reader
  reader-stores index io =
      let evicts = str_eq io "nocache" && was_mapped index.last_io in
      let readers = if evicts then without "mmap" index.readers else index.readers in
      elim (Option-cases (opened io readers)) [
        | inr (rd, found) ↦ rw (reader, found) (refl, refl)
        | inl absent ↦ elim (Bool-cases (str_eq io "mmap")) [
          | inl mapped ↦ rw (reader, absent, mapped) (refl, refl)
          | inr other ↦ elim (Bool-cases (str_eq io "nocache")) [
            | inl direct ↦ rw (reader, absent, other, direct) (refl, refl)
            | inr unknown ↦ rw (reader, absent, other, unknown) (refl, refl)
          ]
        ]
      ]

  -- After a search with the memory map, a call for `nocache` evicts the pages of the file. A call with an
  -- unsupported `io` raises ValueError, but it stores that `io` first: a call for `nocache` behind it
  -- does not evict.
  pub reader_refused :
      (index : Index np.Vec) (io : String)
      → index.last_io ≡ some "mmap"
      → opened io index.readers ≡ none
      → str_eq io "mmap" ≡ false
      → str_eq io "nocache" ≡ false
      → let call = reader np arith_ops mt fl index io in
        ((reader np arith_ops mt fl index "nocache").1 ≡ true)
        × (call.2 ≡ raise value_error)
        × ((reader np arith_ops mt fl call.0 "nocache").1 ≡ false)
  unfolding reader
  reader_refused index io mapped absent other other' =
      let call = reader np arith_ops mt fl index io in
      let before = (reader-stores index "nocache").0 in
      let stored = (reader-stores index io).1 in
      let after = (reader-stores call.0 "nocache").0 in
      (
        before ∙ ap was_mapped mapped,
        rw (reader, other', absent, other, other') refl,
        after ∙ ap was_mapped stored ∙ other,
      )
