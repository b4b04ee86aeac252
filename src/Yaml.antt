-- ===== src/Yaml.antt =====
-- src/blogin/yaml.cpp: the YAML subset. Lines, scalars, the parser over the lines, and the depth of
-- the value it builds.
pub mod Lines
pub mod Scalars
pub mod Parser
pub mod Depth
