-- ===== src/Exchanges/Binance.antt =====
-- core/exchange/binance_linear_exchange.cpp: the client of Binance.
pub mod Names
pub mod State
pub mod Linear
pub mod Trade
pub mod Md
pub mod User
pub mod Rest
pub mod Connect
pub mod Run
pub mod Keeps
pub mod Stable
pub mod Ids
pub mod Distinct
pub mod Rejects
pub mod Reconnect
pub mod Echo
pub mod Readback
pub mod Lost
pub mod Stream
