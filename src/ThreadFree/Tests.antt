-- ===== src/ThreadFree/Tests.antt =====
-- A block at 4096 with the flag `MI_NO_DELAYED_FREE`.
