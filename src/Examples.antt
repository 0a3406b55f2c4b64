-- ===== src/Examples.antt =====
-- The theorems at concrete inputs.
mod Plain
mod Serde
mod Sessions
mod Connections
mod Messages
mod Prompts
mod Frames
mod Agents
mod Services
mod Answers
mod Models
mod Codecs
