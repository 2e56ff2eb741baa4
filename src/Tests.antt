-- ===== src/Tests.antt =====
-- Tests by evaluation, and the theorems at concrete inputs.
mod Strings
mod Tags
mod Dumps
mod Output
mod Commands
mod Dates
mod Headers
mod Maildirs
mod Listed
mod Databases
mod Summaries
