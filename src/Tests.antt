-- ===== src/Tests.antt =====
-- Runs of the definitions at concrete inputs, and the theorems applied to them.
mod EventRuns
mod KafkaRuns
mod WebhookRuns
mod WorkerRuns
mod AuthRuns
mod ApiRuns
mod PlatformRuns
pub mod Samples
