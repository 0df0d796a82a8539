-- ===== src/Sample.antt =====
-- examples/: the sample server, a request handler with a small command language, and its main program.
pub mod Text
pub mod Handler
pub mod Arguments
pub mod Program
pub mod Pooled
pub mod Examples
