-- ===== src/Tests.antt =====
-- Tests and instances of the theorems at concrete inputs.
mod Statements
mod Web
mod Settings
mod Grants
mod Release
mod Returned
