-- ===== src/Point.antt =====
-- src/object/DataPoint.cpp: one information object. `Data` has the state, the constructor and the
-- setters, `Update` what sets the value; the other children prove.
pub mod Data
pub mod Update
pub mod Valid
pub mod Domain
