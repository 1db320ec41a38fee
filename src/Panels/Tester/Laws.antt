-- ===== src/Panels/Tester/Laws.antt =====
-- The tester's samples and its rate tab.
use rate_x_rate_limiter_web.Base.{◌≡◌, refl, String}
use rate_x_rate_limiter_web.Text.{append, begins}
use rate_x_rate_limiter_web.Api.Demo.{target}
use rate_x_rate_limiter_web.Panels.Tester.{Tester, try_sample}

-- A sample is sent to the local server, whatever base the build was given for the API.
pub target-try_sample :
    (t : Tester) (base method route : String)
    → target base (try_sample t method route).url ≡ append "http://localhost:8081" route
unfolding target try_sample begins
target-try_sample t base method route = refl
