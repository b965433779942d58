-- ===== src/Agent.antt =====
-- The conversational agent: its state, its nodes and the graph that joins them (langgraph-python/app/agent).
pub mod Outcomes
pub mod State
pub mod Nodes
pub mod Graph
pub mod OpenRouter
