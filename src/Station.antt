-- ===== src/Station.antt =====
-- src/object/Station.cpp, and the lists of stations of src/Server.cpp and src/remote/Connection.cpp.
pub mod Points
pub mod Stations
pub mod Lookup
