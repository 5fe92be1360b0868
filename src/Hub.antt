-- ===== src/Hub.antt =====
-- market-data-hub/app/domain: the market facts that the hub stores.
pub mod Facts
pub mod Orders
pub mod Days
pub mod Members
mod Examples
