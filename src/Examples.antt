-- ===== src/Examples.antt =====
-- Tests of the model on small inputs: one module for each part.
mod Quorum
mod Log
mod Monitor
mod Uptimes
mod Pki
mod Parents
mod LogLists
mod Handler
mod Post
mod Strategy
mod Run
