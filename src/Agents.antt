-- ===== src/Agents.antt =====
-- src/agents: the runtime of the agents.
pub mod WakeQueue
pub mod Tests
