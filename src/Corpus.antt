-- ===== src/Corpus.antt =====
-- src/slidko/corpus: labelled captures.
pub mod Sidecar
pub mod CaptureCli
pub mod Holdout
