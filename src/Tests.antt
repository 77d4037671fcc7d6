-- ===== src/Tests.antt =====
-- Runs of the definitions at concrete inputs, and the theorems applied to such inputs.
mod Table
mod Ring
mod Network
mod Server
mod Dump
mod Overflow
mod Nodes
mod Programs
mod Startup
mod Cluster
mod Robust
mod Fresh
mod Projet02
mod Projet01
mod Measure
mod Latest
mod Blocks
mod Commands
