-- ===== src/Examples.antt =====
-- Concrete inputs for the theorems: the desktop, the store and the machine self.
mod Chain
mod World
mod Desktop
mod Storage
mod Sentience
mod Capabilities
mod Lease
mod Outbox
mod Ingestion
mod Observations
mod Clients
mod Actions
