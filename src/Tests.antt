-- ===== src/Tests.antt =====
-- Runs of the model on concrete inputs.
mod Text
mod Stages
mod Rings
mod Trail
mod Sinks
mod Messages
mod Queues
mod Channels
mod Bridges
mod Lines
mod Disk
