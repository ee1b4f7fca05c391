-- ===== src/Logger.antt =====
-- src/logger.
pub mod AsyncLogging
pub mod FileUtil
pub mod FixedBuffer
pub mod LogFile
pub mod LogStream
pub mod Logging
