-- ===== src/Agent.antt =====
-- The agent of src/agent.c and include/agent.h, in its files.
pub mod Line
pub mod State
pub mod Run
pub mod Stamps
pub mod Order
pub mod Keeps
pub mod Life
pub mod Range
pub mod Texts
pub mod Sending
pub mod Wire
pub mod Ahead
pub mod Flow
pub mod Delivery
