-- ===== src/Zend.antt =====
-- How phpspy reads the values of a PHP process (phpspy_trace.c and the hash of phpspy.c).
pub mod Hash
pub mod Layout
pub mod Tests
pub mod Versions
pub mod Remote
pub mod Print
pub mod Always
pub mod Bounds
pub mod Binds
