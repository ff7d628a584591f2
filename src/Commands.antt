-- ===== src/Commands.antt =====
-- core/src/mc_commands.c: chat lines, and the commands that start with a slash.
pub mod Tests
pub mod Text
pub mod Tokens
pub mod Fixed
pub mod Decimal
pub mod Handle
