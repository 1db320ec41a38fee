-- ===== src/Limiter/Memory/Agrees.antt =====
-- The bucket in memory against the script of the token bucket, both over exact amounts: in doubles
-- they may differ.
use rate_x_rate_limiter_web.Base.{ℕ, ◌≡◌, refl, Option, none, some, arith}
use rate_x_rate_limiter_web.Limiter.Token.{Config, Bucket, stored, refilled, take_token, script}
use rate_x_rate_limiter_web.Limiter.Memory.{bucket_at, topped_up, take_one, reply}

bucket_at-stored : (c : Config) (now : ℕ) (b : Option Bucket) → bucket_at c now b ≡ stored c now b
bucket_at-stored c now none = refl
bucket_at-stored c now (some b) = refl

topped_up-refilled : (c : Config) (now : ℕ) (b : Bucket) → topped_up c now b ≡ refilled c now b
unfolding topped_up refilled
topped_up-refilled c now b = refl

take_one-take_token :
    (second : ℕ) (c : Config) (now tokens : ℕ)
    → ((take_one second c now tokens).allowed ≡ (take_token c now tokens).allowed)
      × ((take_one second c now tokens).remaining ≡ (take_token c now tokens).remaining)
      × ((take_one second c now tokens).bucket ≡ (take_token c now tokens).bucket)
unfolding take_one take_token
take_one-take_token second c now tokens = ground arith

pub reply-script :
    (second : ℕ) (c : Config) (now : ℕ) (b : Option Bucket)
    → ((reply second c now b).allowed ≡ (script c now b).allowed)
      × ((reply second c now b).remaining ≡ (script c now b).remaining)
      × ((reply second c now b).bucket ≡ (script c now b).bucket)
unfolding reply script
reply-script second c now b =
    rw (bucket_at-stored c now b, topped_up-refilled c now (stored c now b))
      (take_one-take_token second c now (refilled c now (stored c now b)))
