-- ===== src/Ramdisk.antt =====
-- The tool and the kernel together: what init_initrd makes of an image that the tool has written where
-- size_t has four bytes, as for the kernel.
mod Keep
mod Facts
pub mod File
pub mod Load
pub mod RoundTrip
mod Tests
