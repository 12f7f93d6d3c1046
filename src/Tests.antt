-- ===== src/Tests.antt =====
-- Runs of the definitions at concrete inputs.
mod SampleJson
mod FlatRuns
mod CacheRuns
mod OtherRuns
mod VroRuns
mod HnswRuns
mod HnswIndexRuns
mod KmeansRuns
mod DiskannRuns
mod SavedRuns
