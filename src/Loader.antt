-- ===== src/Loader.antt =====
-- The loaders: packages and their manifests of kernel/fs/cnaf, CNIM images, and ELF executables of
-- kernel/elf_load.c.
pub mod Package
pub mod Manifest
pub mod Memory
pub mod Elf
pub mod Cnim
pub mod Sections
pub mod Copies
pub mod Place
pub mod Step
pub mod Loads
pub mod Lines
mod Tests
