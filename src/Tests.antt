-- ===== src/Tests.antt =====
-- Concrete inputs for the theorems, and runs of the model on them.
mod Program
mod Samples
pub mod Streams
mod Queues
mod Dictionaries
mod Trees
mod Nodes
mod Bundles
mod Dumps
pub mod Services
mod Recoveries
mod Reloads
mod Bitmaps
