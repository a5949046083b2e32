-- ===== src/Tests.antt =====
-- The theorems at concrete inputs, and runs of the definitions.
mod PipelineRuns
mod BlobRuns
mod PathRuns
mod MergeRuns
mod ManifestRuns
mod LedgerRuns
mod NetRuns
mod SyncRuns
mod StoreRuns
mod Signer
mod WireRuns
mod ServerRuns
mod ChunkRuns
