-- ===== src/Persistence.antt =====
-- internal/persistence/postgres.go: what its statements do to the rows of a table.
pub mod ClaimRows
pub mod EventRows
pub mod Agreement
pub mod TenantRows
pub mod TenantAgreement
