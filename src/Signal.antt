-- ===== src/Signal.antt =====
-- kernel/signal.c and include/levos/signal.h: sending, blocking, default actions, handlers and the
-- return from them. A task is modelled by the fields that this file reads and writes; a register
-- frame that a pointer of the task names is a field of the task. The calls into the scheduler are
-- values (`Call`), in the order in which they are made.
pub mod State
pub mod Send
pub mod Actions
pub mod Handlers
pub mod Deliver
pub mod Pick
pub mod Uncatchable
pub mod Return
pub mod Dispositions
pub mod Sending
pub mod Outcome
mod Tests
