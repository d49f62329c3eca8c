-- ===== src/Filesystem.antt =====
-- `kernel/filesystem`: pipes, open files and handles.
pub mod HandlesManager
pub mod Pipe
pub mod FileDescription
mod Tests
