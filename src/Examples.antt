-- ===== src/Examples.antt =====
-- Runs of the model at concrete inputs, and the properties applied where their hypotheses hold.
mod Samples
mod Setups
mod JsonRuns
mod CryptoRuns
mod SpoolRuns
mod SpoolWitnesses
mod QueueWitnesses
mod JsonWitnesses
mod ServiceWitnesses
mod WiimWitnesses
mod DeviceWitnesses
mod ServerWitnesses
