-- ===== src/Agent.antt =====
-- cafe-agent-runtime: the pipeline of steps that an agent runs in a session.
pub mod Steps
pub mod Config
pub mod Network
pub mod Dispatch
pub mod Tools
pub mod Executor
pub mod SessionLoop
pub mod Loader
pub mod Lifecycle
pub mod Attachment
