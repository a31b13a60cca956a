-- ===== src/Tests.antt =====
-- Concrete runs of the theorems on small inputs.
mod Fixtures
mod Wire
mod Queues
mod Rooms
mod Sessions
mod Connections
mod Line
mod Clients
mod Lanes
mod Requests
