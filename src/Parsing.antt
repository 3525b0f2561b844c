-- ===== src/Parsing.antt =====
-- src/parsing.cpp, include/td365/parsing.h, and the text form of a tick in src/types.cpp.
pub mod GroupingNames
pub mod DirectionNames
pub mod Numbers
pub mod Fields
pub mod TdTick
pub mod TickLine
pub mod CandleLine
pub mod Iso8601
