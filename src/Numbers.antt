-- ===== src/Numbers.antt =====
-- The numbers that the risk figures are made of, and Python's `sorted`.
-- A Python float is read as the exact fraction that it stands for; the rounding of single float
-- operations is not modelled (`round(x, 9)`, where the source calls it, is).
pub mod Ratio
pub mod Rounding
pub mod Sorting
