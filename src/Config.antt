-- ===== src/Config.antt =====
-- daemons/config_file.c, the reader of the configuration, by its steps: the numbers, the keys of a
-- remote, the checks of a remote and what is derived from it after reading.
pub mod Sort
pub mod Lengths
pub mod Sanity
pub mod Finish
pub mod Numbers
pub mod FlagNames
pub mod Define
pub mod Sections
pub mod Read
pub mod Include
mod Tests
