-- ===== src/Address.antt =====
-- Which addresses `Assert_IPv4` of src/types.cpp accepts. Pattern has regular expressions and how
-- `std::regex_search` matches them, Ip the expression of the source, and Dotted and Colons are about it.
pub mod Pattern
pub mod Ip
pub mod Dotted
pub mod Colons
