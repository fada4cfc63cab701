-- ===== src/Examples.antt =====
-- Runs of the model on concrete data, one module per part of the kernel.
mod Objects
mod Pipes
mod Files
mod Services
mod Tasks
mod Packets
mod Channels
mod Futexes
mod Formats
mod Frames
mod Ranges
mod Pointers
mod Kills
mod Trees
mod Nodes
