-- ===== src/Fout.antt =====
-- event_fout.c, the handler that prints each trace as delimited records.
-- `Sys` is what it asks of the operating system, `Buffer` the growing buffer, `Chunks` the writer
-- and `Events` the switch over the event types. The other modules prove.
pub mod Tests
pub mod Sys
pub mod Buffer
pub mod Chunks
pub mod Events
pub mod Open
pub mod OneFile
pub mod OpenTests
pub mod Growth
pub mod Reassembly
pub mod Loop
pub mod Trace
pub mod Records
pub mod Atomic
pub mod Handler
pub mod Strip
pub mod Whole
