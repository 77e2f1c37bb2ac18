-- ===== src/Outside.antt =====
-- What the program uses and does not implement, as interfaces.
pub mod ScriptServer
pub mod Floats
pub mod Json
pub mod Lua
pub mod Bridge
pub mod Redis
