-- ===== src/Examples.antt =====
-- Concrete instances of the interfaces, runs of the code on them, and the theorems at these runs.
pub mod Fixtures
pub mod Texts
pub mod Scenario
pub mod NodeScenario
pub mod ApplicationTests
pub mod ConsensusTests
pub mod NodeTests
pub mod CliTests
pub mod XtaskTests
pub mod NetworkScenario
pub mod NetworkTests
pub mod FleetTests
pub mod ProposalTests
pub mod WaitingTests
pub mod FinalityTests
pub mod SettlementTests
pub mod MailboxTests
pub mod ForgeryTests
