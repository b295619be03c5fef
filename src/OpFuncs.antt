-- ===== src/OpFuncs.antt =====
-- src/opFuncs.cpp: the operators of constant folding, on GMP integers. A function that only writes
-- dst returns the new dst; one that may leave dst alone, or reads it, takes it as an argument. The
-- scratch variables t1 and t2 are set before each use, so they are local. mpz_set is the value
-- itself, and the _ui forms are the operations at a number.
mod Values
mod Shifts
mod Logic
unfoldable pub use Values.*
unfoldable pub use Shifts.*
unfoldable pub use Logic.*
