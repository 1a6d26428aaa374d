-- ===== src/Paths.antt =====
-- misc.c: the functions on path names and RCS revision numbers. A path is the list of its bytes.
pub mod Compare
pub mod CompareOrder
pub mod Common
pub mod CommonLongest
pub mod Rcs
pub mod RcsSafe
