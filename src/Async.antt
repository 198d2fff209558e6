-- ===== src/Async.antt =====
-- The asynchronous scheduler: its timers (src/async_timer_queue.h) and its frames
-- (src/async_scheduler_core.h).
pub mod Timers
pub mod Scheduler
