-- ===== src/Paging.antt =====
-- paging.c and paging.h, one module for each group of functions.
pub mod Entry
pub mod Fields
pub mod RoundTrip
pub mod Canonical
pub mod Walk
pub mod Clone
pub mod Tree
