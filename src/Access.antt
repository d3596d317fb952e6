-- ===== src/Access.antt =====
-- Who may do what: the users, their roles and the guards that every handler calls first.
pub mod Roles
pub mod Users
pub mod Checks
pub mod Policy
pub mod Decisions
pub mod Tests
