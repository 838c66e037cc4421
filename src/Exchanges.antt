-- ===== src/Exchanges.antt =====
-- core/engine/exchange.cpp and core/exchange: the events that an exchange puts, the settings of a
-- crypto exchange, and the clients of Binance and OKX.
pub mod Base
pub mod Handler
pub mod Keeps
pub mod Ticks
pub mod Crypto
pub mod Json
pub mod Utils
pub mod Received
pub mod Binance
pub mod Okx
