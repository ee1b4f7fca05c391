-- ===== src/Mysql.antt =====
-- src/mysql.
pub mod ConnectionPool
pub mod MysqlConn
