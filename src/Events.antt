-- ===== src/Events.antt =====
-- `Broker` of internal/runtimeevent/broker.go: events that are handed to bounded subscriber queues.
pub mod Broker
pub mod Delivery
