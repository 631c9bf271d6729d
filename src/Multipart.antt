-- ===== src/Multipart.antt =====
-- multipart_parser.h and multipart_parser.cpp: a push parser for multipart/form-data.
pub mod Types
pub mod Machine
pub mod Bytewise
pub mod Callbacks
pub mod Equivalence
pub mod Loop
pub mod Invariant
pub mod SafeSteps
pub mod Valid
pub mod Body
pub mod Headers
pub mod Boundary
pub mod Message
pub mod Fields
pub mod Faults
mod Tests
