-- ===== src/Examples.antt =====
-- Concrete parties of the program, and its theorems at concrete inputs.
mod Memory
mod Hub
mod Handlers
mod Provisioning
mod Queue
mod MemoryValkey
mod Codec
mod Edge
mod Connect
mod Requests
mod Buckets
mod Callback
mod Agents
mod Listing
