-- ===== src/Io.antt =====
-- nih/io.c: the buffers that data waits in between a descriptor and its user.
pub mod Buffer
pub mod Stream
mod Tests
