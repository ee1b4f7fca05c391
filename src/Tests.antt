-- ===== src/Tests.antt =====
-- The theorems at concrete inputs.
pub mod BufferTests
pub mod EventLoopThreadTests
pub mod ExampleTests
pub mod HttpTests
pub mod LoggerTests
pub mod LogFileTests
pub mod LoggingTests
pub mod MemoryTests
pub mod MysqlConnTests
pub mod MysqlTests
pub mod NetTests
pub mod ServerLifeTests
pub mod ServerTests
pub mod ThreadPoolTests
pub mod TimerTests
