-- ===== src/Tests.antt =====
-- The development on concrete inputs: a firmware with a clock, short exchanges, and what the
-- theorems say of them.
mod Fixture
mod Wire
mod Log
mod Serving
mod Calling
mod App
mod Devices
mod Together
mod Desk
mod Uart
mod Transport
mod Forward
