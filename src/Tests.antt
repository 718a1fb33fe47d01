-- ===== src/Tests.antt =====
-- Runs of the model at concrete inputs, which also show that the theorems' hypotheses can hold.
pub mod Samples
pub mod Raw
pub mod Storages
pub mod Watchers
pub mod Git
pub mod Watching
pub mod Syncing
pub mod Framing
pub mod Codecs
pub mod Coding
pub mod Lost
pub mod PullRequests
pub mod Patches
pub mod Objects
