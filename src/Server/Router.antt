-- ===== src/Server/Router.antt =====
-- server/router.py: the registry of connections, username → websocket.
use mathlib.Core.List.{map}
use chat_terminal.Common.{String, Bool, Option, List, string_eq}
use chat_terminal.Common.Dict.{lookup, insert, erase, contains}
use chat_terminal.Server.World.{World, Ws}

unfoldable pub register : String → Ws → World → World
register username ws w = record w { connections = insert username ws w.connections }

unfoldable pub unregister : String → World → World
unregister username w = record w { connections = erase username w.connections }

unfoldable pub get : String → World → Option Ws
get username w = lookup username w.connections

unfoldable pub online_users : World → List String
online_users w = map (λ c. c.0) w.connections

abbrev is_online : String → World → Bool
is_online username w = contains username w.connections
