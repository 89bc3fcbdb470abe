-- ===== src/Tests.antt =====
-- Runs of the definitions on concrete inputs, and the theorems applied to some.
mod Settling
mod Modelling
mod Watching
mod Scanning
mod Generating
mod Working
mod Detecting
