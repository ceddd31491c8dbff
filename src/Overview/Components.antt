-- ===== src/Overview/Components.antt =====
-- features/overview/components: what the parts of the overview page render.
--
-- The percentages are exact fractions, where the source has the nearest double. `Click` is what a
-- button of the page calls.
use blockops.Prelude.{
  ℕ, ◌*◌, Bool, not, Option, none, some, List, [], ◌∷◌, ◌++◌, map, ltb, if◌then◌else◌,
}
use blockops.Js.Text.{Text, codes}
use blockops.Js.Number.{to_text}
use blockops.Formatters.{to_fixed_1, format_bytes, format_duration, format_date}
use blockops.Ui.{
  Fraction, View, nothing, words, heading, pill, meter, button, ghost, views, beside, shown_if,
}
use blockops.Api.Error.{Caught}
use blockops.Backups.Catalog.{Backup}
use blockops.Overview.Page.{
  start, stop, OverviewAction, server, is_online, is_offline, PageEvent, requested,
}
use blockops.Overview.Data.{
  Available, available, unavailable, ServerInfo, ServerMetrics, DiskMetrics, PlayerSummary,
  WarningLine, Overview, server_state_tone, state_text, state_of,
}

-- What a click calls: a handler of the page, or `refetch`.
pub data Click : Type 0 where
  on_page : PageEvent Caught → Click
  refetch : Click

abbrev pub ask : OverviewAction → Click
ask a = on_page (requested a)

-- `value || "Unavailable"`
abbrev pub or_unavailable : Option Text → Text
or_unavailable none = codes "Unavailable"
or_unavailable (some []) = codes "Unavailable"
or_unavailable (some (c ∷ s)) = c ∷ s

abbrev pub unavailable_text : Option Text → Text
unavailable_text none = codes "This metric is unavailable."
unavailable_text (some message) = message

abbrev pub detail : Text → Text → View Click
detail term value = beside (words term) (words value)

-- components/server-lifecycle.tsx
unfoldable pub server_details : Available ServerInfo → View Click
server_details (unavailable message) = words (unavailable_text message)
server_details (available info message) = views (
    detail (codes "Software") (or_unavailable info.software)
    ∷ detail (codes "Version") (or_unavailable info.version)
    ∷ detail (codes "Uptime") (format_duration info.uptime_seconds)
    ∷ detail (codes "Container image") (or_unavailable info.image)
    ∷ [])

abbrev pub server_title : Available ServerInfo → Text
server_title (available info message) = codes "Minecraft server"
server_title (unavailable message) = codes "Integration unavailable"

unfoldable pub server_lifecycle : Available ServerInfo → Bool → View Click
unfolding server_details server_state_tone
server_lifecycle server_ can_control =
    let state = state_of server_ in
    views (
      words (codes "Configured Java server")
      ∷ heading (server_title server_)
      ∷ pill (server_state_tone state) (state_text state)
      ∷ server_details server_
      ∷ shown_if can_control (
          beside (button ghost (codes "Start") (not (is_online state)) (ask (server start)))
            (button ghost (codes "Stop") (not (is_offline state)) (ask (server stop))))
      ∷ [])

-- components/player-summary.tsx
unfoldable pub player_names : List Text → View Click
player_names [] = words (codes "The server is quiet.")
player_names (name ∷ names) = views (map words (name ∷ names))

abbrev pub online_players : Available PlayerSummary → View Click
online_players (unavailable message) = words (unavailable_text message)
online_players (available players message) = views (
    words (to_text players.online)
    ∷ words (codes " / " ++ (to_text players.max ++ codes " online"))
    ∷ player_names players.names
    ∷ [])

unfoldable pub player_summary : Available PlayerSummary → View Click
unfolding player_names
player_summary players =
    views (words (codes "Right now") ∷ heading (codes "Players") ∷ online_players players ∷ [])

-- components/metric-card.tsx: `Math.min(100, Math.max(0, percent))`
unfoldable pub normalized : Fraction → Fraction
normalized percent =
    if ltb (100 * percent.denominator) percent.numerator
    then record { numerator = 100; denominator = 1 }
    else percent

abbrev pub message_text : Option Text → View Click
message_text none = nothing
message_text (some message) = words message

unfoldable pub metric_card : Text → Text → Option Fraction → Option Text → View Click
unfolding normalized
metric_card label value none message = views (words label ∷ words value ∷ message_text message ∷ [])
metric_card label value (some percent) message =
    views (words label ∷ words value ∷ meter label (normalized percent) ∷ [])

-- `total ? part / total * 100 : undefined`
unfoldable pub percent_of : ℕ → ℕ → Option Fraction
percent_of part total =
    if ltb 0 total then some (record { numerator = part * 100; denominator = total }) else none

abbrev pub part_text : ℕ → ℕ → Text
part_text part total = format_bytes (some part) ++ (codes " / " ++ format_bytes (some total))

-- components/capacity-section.tsx
unfoldable pub cpu_card : Available ServerMetrics → View Click
unfolding metric_card
cpu_card (unavailable message) = metric_card (codes "CPU") (codes "Unavailable") none message
cpu_card (available m message) =
    metric_card (codes "CPU")
      (to_fixed_1 m.cpu_percent.numerator m.cpu_percent.denominator ++ codes "%")
      (some m.cpu_percent) message

unfoldable pub memory_card : Available ServerMetrics → View Click
unfolding metric_card percent_of
memory_card (unavailable message) = metric_card (codes "Memory") (codes "Unavailable") none message
memory_card (available m message) =
    metric_card (codes "Memory") (part_text m.memory_usage_bytes m.memory_limit_bytes)
      (percent_of m.memory_usage_bytes m.memory_limit_bytes) message

unfoldable pub disk_card : Available DiskMetrics → View Click
unfolding metric_card percent_of
disk_card (unavailable message) = metric_card (codes "Disk") (codes "Unavailable") none message
disk_card (available d message) =
    metric_card (codes "Disk") (part_text d.used_bytes d.total_bytes)
      (percent_of d.used_bytes d.total_bytes) message

-- components/warnings-section.tsx
abbrev pub warning_line : WarningLine → View Click
warning_line line = words line.line_text

unfoldable pub warnings_list : List WarningLine → View Click
warnings_list [] = words (codes "No recent warnings are present in the bounded console buffer.")
warnings_list (line ∷ lines) = views (map warning_line (line ∷ lines))

unfoldable pub warnings_section : List WarningLine → View Click
unfolding warnings_list
warnings_section lines =
    views (
      words (codes "Recent signals")
      ∷ heading (codes "Console warnings")
      ∷ warnings_list lines
      ∷ [])

module _ (format : Text → Option Text) where
  abbrev backup_text : Option Backup → Text
  backup_text none = codes "No backup has completed yet."
  backup_text (some b) = format_bytes (some b.size_bytes)

  abbrev created_at : Option Backup → Option Text
  created_at none = none
  created_at (some b) = some b.created_at

  unfoldable pub capacity_section : Overview → View Click
  unfolding cpu_card memory_card disk_card
  capacity_section data_ = views (
      words (codes "Capacity")
      ∷ heading (codes "Resource envelope")
      ∷ words (codes "Refreshes every 10 seconds")
      ∷ cpu_card data_.metrics
      ∷ memory_card data_.metrics
      ∷ disk_card data_.disk
      ∷ words (codes "Last successful backup")
      ∷ words (format_date format (created_at data_.last_successful_backup))
      ∷ words (backup_text data_.last_successful_backup)
      ∷ [])
