-- ===== src/Domains.antt =====
-- library/domains: entities, services, the unit of work and the use cases.
pub mod Entities
pub mod Uow
pub mod Storages
pub mod Services
pub mod UseCases
