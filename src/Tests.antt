-- ===== src/Tests.antt =====
-- Concrete runs, and the theorems at concrete data.
mod Deployment
mod Shadowing
mod Repair
mod Mapping
mod Drifting
mod Meaning
mod Certifying
mod Compiling
mod Validating
mod Assisting
mod Ingesting
mod Onboarding
mod Profiling
