-- ===== src/Expression/Evaluate/Recorded.antt =====
-- src/blogin/expression.cpp and src/blogin/view_context.cpp: what an evaluation leaves in a recording.
use blogin.ViewContext.{ViewContext}
