-- ===== src/Oms.antt =====
-- core/engine/engine.cpp: `OmsEngine`, the tables of the latest data and the offset converters.
pub mod Engine
pub mod Consistent
pub mod History
pub mod Converters
pub mod Listed
