-- ===== src/Examples.antt =====
-- Concrete instances of the theorems, and tests.
mod Sending
mod References
mod Told
mod Schedules
mod Server
mod Overwriting
mod Values
mod Waiting
mod Sent
mod Delivered
mod Listed
mod Received
mod Devices
mod MetaServer
mod Publishing
