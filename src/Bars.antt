-- ===== src/Bars.antt =====
-- core/engine/utility.h and core/engine/utility.cpp: `BarGenerator`, bars from ticks and window bars from bars.
pub mod Generator
pub mod Ticks
pub mod Windows
