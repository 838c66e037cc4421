-- ===== src/Tests.antt =====
-- Theorems applied at concrete inputs.
mod Names
mod Samples
mod ConverterTests
mod OmsTests
mod EventTests
mod BarTests
mod CtaTests
mod JsonSamples
mod BinanceSamples
mod ExchangeTests
mod BinanceTests
mod OkxTests
