-- ===== src/Limiter.antt =====
-- internal/limiter and the scripts of internal/redis/scripts.go: what a limiter answers, and one
-- child for each algorithm.
pub mod Times
pub mod Token
pub mod Fixed
pub mod Sliding
pub mod Memory
pub mod Replies
use rate_x_rate_limiter_web.Base.{ℕ, Bool}

-- internal/limiter/limiter.go
pub record Decision : Type 0 where
  pub allowed : Bool
  pub remaining : ℕ
  pub retry_after : ℕ
  pub limit : ℕ
  pub reset_after : ℕ
