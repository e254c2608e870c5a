-- ===== src/Api/Memory/Slots.antt =====
-- The cells by the type of what they hold.
pub mod Values
pub mod Structs
