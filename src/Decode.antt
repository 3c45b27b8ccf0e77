-- ===== src/Decode.antt =====
-- src/decode: what the decoded instructions and the data sections refer to.
pub mod Callgraph
pub mod Scan
