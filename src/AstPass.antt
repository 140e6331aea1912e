-- ===== src/AstPass.antt =====
-- The AST pass that extracts labelled statements (ast-pass/GetLabeledStmts.cpp).
pub mod Tree
pub mod Visitor
pub mod Callers
pub mod Output
pub mod Labels
pub mod Calls
pub mod Search
pub mod Endless
pub mod Tests
