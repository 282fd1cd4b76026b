-- ===== src/Api.antt =====
-- pkg/api: the event vocabulary (events.go), the payloads, and the part of the JSON contract that the
-- replayed state reports (contract.go).
pub mod EventType
pub mod Payloads
pub mod Event
pub mod Contract
