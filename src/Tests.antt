-- ===== src/Tests.antt =====
-- Runs of the definitions on concrete inputs, and the theorems applied to them.
mod Publish
mod Access
mod Posts
mod Rules
mod Calendar
mod Delivery
mod Jobs
mod Api
mod Services
