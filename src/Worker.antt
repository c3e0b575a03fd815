-- ===== src/Worker.antt =====
-- src/opencortex/store/event/worker.py and failure.py: the consumer of the persistent queue, with the
-- payloads of events.py that it stores. It drives the queue (Queue) and the progress of the requests
-- (Wait).
pub mod Failure
pub mod Events
pub mod Defs
pub mod Agreement
pub mod Rejection
pub mod System
mod Taking
mod Others
mod Settling
mod Publishing
pub mod Completion
mod Tests
