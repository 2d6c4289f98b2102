-- ===== src/Protocol.antt =====
-- plugin/protocol.c and plugin/protocol.h: requests and their answers, one line each. The children
-- follow the file from top to bottom: the escape and the printing of values, the parsing of fields,
-- the state behind a request, the texts of the answers, and the handler.
pub mod Escape
pub mod Print
pub mod Spelling
pub mod Fields
pub mod Host
pub mod Replies
pub mod Handle
pub mod Framing
pub mod Answers
pub mod Console
pub mod Reading
mod Examples
