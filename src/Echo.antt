-- ===== src/Echo.antt =====
-- The streams of a subcommand that a client passes on: src/main/cpp/read-on-ready.cpp,
-- src/main/cpp/read-multi-strm.cpp, src/main/cpp/stream-ctx.cpp and src/main/cpp/echo-streams.cpp.
-- Copy copies what one pipe holds, Streams keeps the table of the pipes, Rounds goes round while
-- any is open, and Response makes the tables and the exit code.
pub mod Copy
pub mod Streams
pub mod Rounds
pub mod Response
