-- ===== src/Webhooks.antt =====
-- src/webhooks.js: the hooks of an extension or of a namespace, the deliveries that an event
-- schedules, and the worker that sends them.
pub mod Targets
pub mod Messages
pub mod Registry
pub mod Queue
