-- ===== src/Examples.antt =====
-- Concrete runs: small inputs on which the code is evaluated and the theorems are applied.
pub mod World
mod Queues
mod Events
mod Processes
mod Reactors
mod Requests
mod Terminals
mod Controls
mod Boot
