-- ===== src/Server.antt =====
-- The server package's plugins (server/plugin.go) and those that rpcx brings (serverplugin/).
pub mod Plugins
pub mod Access
pub mod Alias
pub mod Handler
pub mod Registry
pub mod Process
pub mod Context
pub mod Conn
pub mod Life
pub mod LogicSync
mod Fixtures
mod Tests
