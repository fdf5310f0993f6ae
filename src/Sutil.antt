-- ===== src/Sutil.antt =====
-- The utilities of sutil/src.
pub mod ChainList
mod Examples
