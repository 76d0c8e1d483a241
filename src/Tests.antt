-- ===== src/Tests.antt =====
-- The theorems applied at concrete inputs.
mod Fixture
mod OnSubscriptions
mod OnAccounts
mod OnKeys
mod OnRequests
mod OnRuns
mod OnSystem
mod OnApi
