-- ===== src/Cli/OutputFiles/Taken.antt =====
-- src/cli/commands.cpp: temporary names that are all taken.
use securekit.FileSystem.{FileSystem}
