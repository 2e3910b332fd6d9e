-- ===== src/Examples.antt =====
-- Tests of the components on concrete inputs.
mod Dates
mod Deliveries
mod Outbox
mod Maintenance
mod Bookings
mod Limits
mod Identifiers
mod Interactions
mod Jobs
mod Tables
mod Mutations
mod Bans
mod Notices
mod Profiles
mod Sanctions
