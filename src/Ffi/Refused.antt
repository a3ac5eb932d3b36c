-- ===== src/Ffi/Refused.antt =====
-- src/ffi.rs, src/multi/ffi.rs, src/dispatch/ffi.rs: the messages that no call of the C interfaces takes.
use xshm.Segment.{Segment}
use xshm.Auto.Handle.{Handle}
