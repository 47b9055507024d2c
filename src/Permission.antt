-- ===== src/Permission.antt =====
-- The permission system: the tables of db/migrations/20260628110000_create_permission_system.up.sql,
-- the decisions of usecase/permission_usecase.go, and the operations on groups, members and roles.
pub mod Tables
pub mod Fixtures
pub mod Check
pub mod RoleTables
pub mod Groups
pub mod Roles
