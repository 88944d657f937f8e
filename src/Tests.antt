-- ===== src/Tests.antt =====
-- Concrete runs of the modelled packages of open-bbcd/internal.
mod Fixtures
mod Caps
mod Streams
mod Turns
mod Trees
mod Steps
mod Flowmap
mod Labels
mod Agui
mod Bypass
mod Stores
mod Tools
mod Pages
