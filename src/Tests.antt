-- ===== src/Tests.antt =====
-- Runs of the model on concrete inputs, and each theorem at an input that meets its conditions.
mod Run
mod Election
mod Logs
mod Servers
mod Requests
mod Store
mod Alone
mod Timers
mod Files
mod Wires
mod Queues
