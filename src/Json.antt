-- ===== src/Json.antt =====
-- string_stream.hpp and serialize.hpp: JSON text, written to a stream and read token by token.
pub mod Stream
pub mod Growth
pub mod Escape
pub mod Written
pub mod Token
pub mod Lexer
pub mod Next
pub mod Cursor
pub mod Filled
pub mod Quote
pub mod QuoteLoop
pub mod RoundTrip
pub mod Number
pub mod Skip
pub mod Values
pub mod Marks
pub mod Render
pub mod Serial
pub mod Spoken
pub mod Leaves
pub mod Sequences
pub mod Items
pub mod Container
pub mod ContainerFaults
pub mod Faults
pub mod Kept
pub mod Ends
pub mod NextEnds
pub mod Finish
mod Tests
mod ContainerTests
