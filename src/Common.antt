-- ===== src/Common.antt =====
-- What every part of the program includes (common).
pub mod Log
pub mod Assert
