-- ===== src/Transfer.antt =====
-- client/filetransfer.go: copying a file to the remote host and fetching one from it, in chunks.
pub mod Options
pub mod Progress
pub mod Scripts
pub mod Upload
pub mod Output
pub mod Fetch
pub mod Cases
pub mod Streaming
pub mod Segments
pub mod Copy
