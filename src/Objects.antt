-- ===== src/Objects.antt =====
-- core/engine/object.h, core/engine/object.cpp and core/engine/constant.h: the data that the components pass.
pub mod Constant
pub mod Market
pub mod Trading
pub mod Names
pub mod Ids
