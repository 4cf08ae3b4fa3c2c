-- ===== src/Narrate.antt =====
-- src/slidko/narrate: from events and findings to assertions.
pub mod Model
pub mod AddressBook
pub mod TransactionSummary
pub mod Coincidence
pub mod ReceiverRule
pub mod Compose
