-- ===== src/Tests.antt =====
-- The theorems at concrete inputs, which their hypotheses admit.
mod Answers
mod Captures
mod Checkpoints
mod Code
mod Collections
mod Headers
mod Heaps
mod Logs
mod Machines
mod Strings
mod Tokens
mod Words
