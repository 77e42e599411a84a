-- ===== src/Agent.antt =====
-- The agent programs under xv6-src/user: what they share with the host, and the evaluator, which
-- settles fixes with the kernel's verifier.
pub mod Proxy
pub mod Call
pub mod Stage
pub mod Evaluator
