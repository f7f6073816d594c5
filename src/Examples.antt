-- ===== src/Examples.antt =====
-- Concrete inputs on which the theorems are applied and the functions are run, by the part of the
-- program they are about.
mod Single
mod Trees
mod Spaces
mod Managers
mod Chunks
mod Arrays
mod Buses
mod Disks
mod Drives
mod Owners
mod Pages
mod Screens
