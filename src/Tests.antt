-- ===== src/Tests.antt =====
-- The theorems at concrete inputs, and runs of the definitions.
mod World
mod Acceptors
mod Queues
mod Loops
mod Servers
mod Sockets
mod Printing
mod Threads
mod Rings
mod FixedRings
mod Buffers
mod Channels
mod Transports
mod Serving
