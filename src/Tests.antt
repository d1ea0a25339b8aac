-- ===== src/Tests.antt =====
-- Runs on small databases, and each theorem at an input that meets its hypotheses.
pub mod Sample
mod GroupCases
mod TransferCases
mod RequestCases
mod SecretCases
mod RunCases
mod PageCases
mod ConnectionCases
mod SchedulerCases
mod TextCases
mod HandlerCases
mod WorkerCases
mod DtoCases
mod SparkCases
mod ProviderCases
mod ListingCases
