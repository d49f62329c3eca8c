-- ===== src/Stdlib.antt =====
-- The containers of `libraries/stdlib` that the kernel is built on.
pub mod Links
pub mod LinkedList
pub mod IntrusiveList
pub mod String
pub mod StringView
pub mod PathView
pub mod Vector
pub mod Stack
pub mod CircularBuffer
pub mod Bitmap
pub mod Clib
mod Tests
