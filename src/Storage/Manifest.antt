-- ===== src/Storage/Manifest.antt =====
-- src/manifest.cpp: the versioned list of the tables of a store, and the file CURRENT that names the
-- version in force.
pub mod Format
pub mod Tables
pub mod Manager
pub mod Parts
pub mod RoundTrip
pub mod Commits
mod Tests
