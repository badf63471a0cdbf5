-- ===== src/Query.antt =====
-- The query language: its tree, tokenizer, parser and executor (src/query).
pub mod Dsl
pub mod Project
pub mod Executor
pub mod Lexer
pub mod Parser
