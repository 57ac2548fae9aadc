-- ===== src/Tests.antt =====
-- Runs of the model, and each theorem that has hypotheses at a concrete input.
mod Suppress
mod Kind
mod Payloads
mod Database
mod Opening
mod History
mod Watcher
mod Config
mod Label
mod Server
mod Settings
mod Startup
mod Restore
mod Client
mod Capture
mod Run
