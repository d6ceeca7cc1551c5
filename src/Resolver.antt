-- ===== src/Resolver.antt =====
-- The event resolver, the HTTP service under resolver/src: its data, its two credentials, its store
-- and its endpoints.
pub mod Model
pub mod Auth
pub mod Store
pub mod Delivery
pub mod Enrollment
pub mod Binding
pub mod WellFormed
pub mod Config
pub mod Routes
mod Tests
