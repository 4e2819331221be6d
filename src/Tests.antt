-- ===== src/Tests.antt =====
-- Tests of the definitions, and each theorem at an input that meets its hypotheses.
mod Hashes
mod FlProject
mod Serving
mod Blobs
mod Folder
mod Limiting
mod Merging
mod Providing
mod Pruning
mod Contracts
mod Memory
mod Pushing
