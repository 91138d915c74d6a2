-- ===== src/Sandbox.antt =====
-- pkg/sandbox: output capture, the choice of a backend, and the verdicts of the three backends.
pub mod Affinity
pub mod Files
pub mod Workspace
pub mod Buffer
pub mod Select
pub mod Process
pub mod Native
pub mod Docker
pub mod DevProcess
pub mod Verdicts
