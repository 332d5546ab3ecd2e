-- ===== src/Examples.antt =====
-- Runs of the code on small inputs, and each theorem at an input that meets its hypotheses.
mod Pokes
mod Chains
mod Copying
mod Clones
mod Files
mod Directories
mod Metadata
mod Striping
mod Reading
mod Opening
mod Listing
mod Paths
mod Filesets
mod Tool
mod Mounts
mod Partitions
