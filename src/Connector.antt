-- ===== src/Connector.antt =====
-- internal/connector: the identifier allowlist, the statement builders of the four dialects, and the
-- connection that sends them. The proofs are in the modules below the children.
pub mod Ident
pub mod Sql
pub mod Dialect
pub mod Conn
pub mod Bulk
