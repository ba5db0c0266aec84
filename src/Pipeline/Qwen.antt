-- ===== src/Pipeline/Qwen.antt =====
-- brain/pipeline/qwen_slm.py: the resolver that asks a language model for an intent
pub mod Choice
pub mod Output
pub mod Prompt
pub mod Process
pub mod Paths
