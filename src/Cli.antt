-- ===== src/Cli.antt =====
-- cmd/bot: the commands `run` and `advise`, which print to the standard output, and the banner. Parsing
-- of flags, logging, and errors of writing to the standard output are left out.
pub mod Banner
pub mod Run
pub mod Charts
pub mod Printing
mod Tests
