-- ===== src/Tests.antt =====
-- Concrete runs of the models, and each result at an input that meets its conditions.
mod Handlers
mod Devices
mod Clients
mod Config
mod Connections
mod Parsing
mod Names
mod Packets
mod Boards
mod Pipelines
mod Servers
