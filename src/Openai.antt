-- ===== src/Openai.antt =====
-- internal/openaiapi: the OpenAI-compatible surface.
pub mod Keys
pub mod Surface
