-- ===== src/Http/Proofs.antt =====
-- What the HTTP server reads, and what it answers.
pub mod Lines
pub mod Words
pub mod Answers
pub mod Answered
pub mod Asked
pub mod Serving
pub mod Handling
