-- ===== src/Tests.antt =====
-- Runs of the model on concrete inputs, most of them from the repository's test/ folder.
mod Lexing
mod Parsing
mod Completions
mod Tables
mod Theorems
mod Vectors
mod Configs
mod Trees
mod Ints
mod Vecs
mod Expressions
mod Graphs
mod Relexings
