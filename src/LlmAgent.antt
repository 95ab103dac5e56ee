-- ===== src/LlmAgent.antt =====
-- llm_agent/: a language model proposes tool calls, and a broker that holds the agent's key decides
-- which of them become signed requests.
pub mod Tools
pub mod Broker
pub mod Loop
