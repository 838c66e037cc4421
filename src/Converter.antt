-- ===== src/Converter.antt =====
-- core/engine/converter.h and core/engine/converter.cpp: positions by side and age, what active orders freeze of
-- them, and the conversion of order requests.
pub mod Holding
pub mod Convert
pub mod Trades
pub mod Frozen
pub mod Swaps
pub mod Reorder
pub mod Volumes
pub mod Net
pub mod Lock
pub mod Dispatch
