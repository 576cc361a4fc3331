-- ===== src/Tests.antt =====
-- Runs at concrete inputs, and the theorems at inputs that meet their hypotheses.
mod Queue
mod Resources
mod Covered
mod Orders
mod Rescheduled
mod Books
mod Runs
mod Handlers
mod Responses
mod Reads
mod Servers
mod Sends
mod Requests
mod Reports
mod Jobs
mod Texts
mod Connections
