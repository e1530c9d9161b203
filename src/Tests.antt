-- ===== src/Tests.antt =====
-- The theorems at concrete inputs.
mod Client
mod Containers
mod Ids
mod Shots
mod Spaces
mod Arenas
mod Keys
mod Teleports
mod Players
