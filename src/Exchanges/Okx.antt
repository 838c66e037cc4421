-- ===== src/Exchanges/Okx.antt =====
-- core/exchange/okx_exchange.cpp: the client of OKX.
pub mod Names
pub mod State
pub mod Client
pub mod Public
pub mod Send
pub mod Account
pub mod Answers
pub mod Private
pub mod Rest
pub mod Connect
pub mod Orders
pub mod Updates
