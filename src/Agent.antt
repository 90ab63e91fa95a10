-- ===== src/Agent.antt =====
-- backend/app/services/ai_agent.py: the part of the agent that works on texts.
pub mod Stream
pub mod Pieces
mod Tests
