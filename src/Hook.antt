-- ===== src/Hook.antt =====
-- The post-build hook's daemon: the queue of store paths (hook/queue.go) and the worker that pushes
-- them (hook/worker.go).
pub mod Queue
pub mod Worker
mod Tests
