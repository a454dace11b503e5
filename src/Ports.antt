-- ===== src/Ports.antt =====
-- The ports of the builder's graph nodes: src/builder/project.h and the table of src/builder/project.c.
pub mod Types
mod Choosing
mod Editing
mod Showing
mod Hosting
pub mod Lookup
