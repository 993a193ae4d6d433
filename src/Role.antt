-- ===== src/Role.antt =====
-- internal/role: the catalog of Roles and the policies of their capabilities. An error is one of
-- ErrInvalidCatalog or ErrInvalidPolicyCatalog, with a text that is left out.
pub mod Catalog
pub mod Policies
pub mod Builtin
pub mod Authority
pub mod Completeness
pub mod Examples
