-- ===== src/Work/Cancel.antt =====
-- kernel/work.c: cancelling a work that waits, and what the thread makes of it.
