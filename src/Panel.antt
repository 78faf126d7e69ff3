-- ===== src/Panel.antt =====
-- The panel: `crates/panel/src`.
pub mod Error
pub mod Permissions
pub mod Store
pub mod Access
pub mod Network
pub mod MySql
pub mod PortSql
pub mod Ports
pub mod EggVars
pub mod Eggs
pub mod Schedules
pub mod Backups
pub mod Scheduler
pub mod Allocations
pub mod Power
pub mod Subusers
pub mod Lifecycle
pub mod Tokens
pub mod Toml
pub mod Login
pub mod Users
pub mod Secrets
pub mod Databases
pub mod EnvMap
pub mod Hosts
pub mod NodeClient
pub mod Nodes
pub mod ServerFiles
pub mod Settings
pub mod Startup
pub mod Activity
pub mod Logs
pub mod Toy
pub mod Sample
