-- ===== src/Resp.antt =====
-- include/network/RESPEncoder.h, src/network/RESPEncoder.cpp, include/network/RESPParser.h and
-- src/network/RESPParser.cpp: the wire protocol. Numbers are in `Decimal`, the encoder in `Encoder`,
-- the parser's state machine in `Parser`; `Grammar` is the grammar of the arrays that it accepts; `Chunks` is about input that arrives in pieces, `RoundTrip`
-- about the two together.
pub mod Decimal
pub mod Encoder
pub mod Parser
pub mod Stream
pub mod Rounds
pub mod Stable
pub mod Chunks
pub mod Grammar
pub mod Accepts
pub mod Numbered
pub mod Complete
pub mod Progress
pub mod Lines
pub mod RoundTrip
mod Runs
