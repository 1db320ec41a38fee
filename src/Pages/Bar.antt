-- ===== src/Pages/Bar.antt =====
-- frontend/src/components/Topbar.jsx and the notice of frontend/src/App.jsx. The shortcut of the search
-- field, which sets the focus, is left out.
use rate_x_rate_limiter_web.Base.{String, if◌then◌else◌}
use rate_x_rate_limiter_web.Text.{is_empty}
use rate_x_rate_limiter_web.App.{Page}
use rate_x_rate_limiter_web.App.Handlers.{Event, notify, refresh, close_notice}
use rate_x_rate_limiter_web.Panels.Shell.{placeholder}
use rate_x_rate_limiter_web.Pages.View.{View, Views, part, button, end, ◌&◌, says}

unfoldable pub topbar : Page → View Event
topbar current = part "div" "topbar" (
    part "label" "search-box"
      (part "input" (placeholder current) end & says "kbd" "Ctrl" & says "kbd" "K" & end)
    & button "ghost" refresh end
    & button "ghost" (notify "Theme preference updated") end
    & button "ghost" (notify "No new notifications") end
    & part "div" "profile" (
        says "span" "RU"
        & part "div" "" (says "strong" "Rensith" & says "small" "Admin" & end)
        & end)
    & end)

-- The notice is there while the message is not empty.
unfoldable pub notice : String → Views Event
notice message =
    if is_empty message
    then end
    else part "div" "notice" (says "span" message & button "notice-close" close_notice end & end)
      & end
