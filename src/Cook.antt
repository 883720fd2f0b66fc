-- ===== src/Cook.antt =====
-- internal/cook: the steps of a recipe, their order, and the state of their run.
pub mod Steps
pub mod Requisites
pub mod Run
pub mod Trees
pub mod Cycles
pub mod Pruning
