-- ===== src/Protocol.antt =====
-- The numbers that the library speaks of by name.
-- They are those of IEC 60870-5-101 and -104 (type identification, cause of transmission, quality
-- bits, addresses, default port); the headers that name them belong to lib60870-C, a submodule.
-- The qualifier of interrogation is src/enums.h, CS101_QualifierOfInterrogation.
mod Types
mod Numbers
pub use Types.*
pub use Numbers.*
