-- ===== src/Httpx/Response.antt =====
-- A response: its status and what is encoded as its body. Headers are not modelled.
use uban_z.Prelude.{ℕ}

pub record Response (B : Type 0) : Type 0 where
  pub status : ℕ
  pub body : B
