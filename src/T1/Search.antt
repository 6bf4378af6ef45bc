-- ===== src/T1/Search.antt =====
-- What the vector search returns: hits of live rows of the user, nearest first.
use memory_agent.Text.{Text}
use memory_agent.Floats.{Floats}
