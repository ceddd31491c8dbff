-- ===== src/Players/Tests.antt =====
-- Requests and rows of players at concrete arguments.
use blockops.Prelude.{◌≡◌, refl, true, false, none}
use blockops.Js.Text.{codes, trim}
use blockops.Js.Utf8.{utf8_length}
use blockops.Zod.Direct.{direct}
use blockops.Players.Schema.{
  ban, takes_reason, Player, PlayerActionRequest, valid, parse_request, player_name_schema,
  player_name_pattern, reason_field, has_line_break_or_null,
}
use blockops.Players.Schema.Laws.{IsRequest, parse_request-IsRequest}

abbrev input : PlayerActionRequest
input = record { action = ban; name = codes "Steve"; reason = codes " grief " }

abbrev request : PlayerActionRequest
request = record { action = ban; name = codes "Steve"; reason = codes "grief" }

parses : parse_request direct input ≡ valid request
unfolding parse_request player_name_schema player_name_pattern reason_field trim utf8_length
    has_line_break_or_null
parses = refl

parse_request-IsRequest_example :
    IsRequest request
    × (request.action ≡ input.action)
    × (request.name ≡ input.name)
    × (takes_reason input.action ≡ true → request.reason ≡ trim input.reason)
parse_request-IsRequest_example = parse_request-IsRequest direct input request parses

abbrev steve : Player
steve = record {
  name = codes "Steve";
  uuid = none;
  online = true;
  allowlisted = true;
  banned = false;
  operator = false;
}
