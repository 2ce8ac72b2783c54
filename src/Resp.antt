-- ===== src/Resp.antt =====
-- The RESP protocol: src/resp-serializer.ts and src/resp-parser.ts.
pub mod Decimal
pub mod Serializer
pub mod Parser
