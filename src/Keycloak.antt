-- ===== src/Keycloak.antt =====
-- internal/keycloak: memberships that follow from what the identity provider holds about people.
pub mod Mapping
pub mod Source
mod Tests
