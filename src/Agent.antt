-- ===== src/Agent.antt =====
-- backend/agent.ts. The children model the concurrency limit and the task queue (Queue), the spending
-- guard (Guard), what `executeTask` does with one task (Execute), `runSequence` (Sequence) and
-- `sanitizePayload` (Sanitize).
pub mod Queue
pub mod Guard
pub mod Execute
pub mod Sanitize
pub mod Sequence
mod Tests
