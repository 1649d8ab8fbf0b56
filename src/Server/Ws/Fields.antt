-- ===== src/Server/Ws/Fields.antt =====
-- How server/ws_server.py reads the fields of a packet. A field that the code reads as a text, and
-- that holds another value, raises.
use chat_terminal.Common.{ℕ, String, Option, none, some, [], ◌∷◌, string_eq, if◌then◌else◌}
use chat_terminal.Common.Dict.{lookup, insert}
use chat_terminal.Shared.Protocol.{Json, null, bool, num, text, Fields, field, Packet, truthy}
use chat_terminal.Shared.Text.{strip}
use chat_terminal.Server.World.{Env}
use chat_terminal.Server.Exec.{Exec, pure, raise, or_raise}

-- A dict that `json.loads` has returned.
unfoldable pub to_packet : Fields → Packet
to_packet Fields.end = []
to_packet (field k v fs) = (k, v) ∷ to_packet fs

-- `pkt.get(k)`
unfoldable pub get_or_null : String → Packet → Json
get_or_null k pkt = elim (lookup k pkt) [ none ↦ null | some v ↦ v ]

-- `pkt.get(k, default)`
unfoldable pub get_default : String → Json → Packet → Json
get_default k default pkt = elim (lookup k pkt) [ none ↦ default | some v ↦ v ]

-- `pkt[k]`
unfoldable pub need : String → Packet → Exec Json
need k pkt = or_raise (lookup k pkt)

unfoldable pub as_text : Json → Exec String
as_text (text s) = pure s
as_text _ = raise

-- `pkt.get(k, "").strip()`
unfoldable pub strip_field : String → Packet → Exec String
strip_field k pkt = elim (lookup k pkt) [
  | none ↦ pure ""
  | some v ↦ elim v [ text s ↦ pure (strip s) | _ ↦ raise ]
]

-- `pkt.get(k, "")`, as the name of a user or a session: null finds nothing, as "" does.
unfoldable pub text_field : String → Packet → Exec String
text_field k pkt = elim (lookup k pkt) [
  | none ↦ pure ""
  | some v ↦ elim v [ null ↦ pure "" | text s ↦ pure s | _ ↦ raise ]
]

-- `x = pkt.get(k)` before `if x:`
unfoldable pub truthy_text : Json → Exec (Option String)
unfolding truthy
truthy_text v = if truthy v then elim v [ text s ↦ pure (some s) | _ ↦ raise ] else pure none

-- A value in an f-string
unfoldable pub formatted : Json → Exec String
formatted null = pure "None"
formatted (text s) = pure s
formatted _ = raise

-- `pkt.get(k, pkt.get("id"))`
unfoldable pub field_or_id : String → Packet → Json
unfolding get_or_null
field_or_id k pkt = elim (lookup k pkt) [ none ↦ get_or_null "id" pkt | some v ↦ v ]

-- `int(v)`
unfoldable pub int_value : Env → Json → Exec ℕ
int_value env (num n) = pure n
int_value env (bool b) = pure (if b then 1 else 0)
int_value env (text s) = or_raise (env.int_of s)
int_value env _ = raise

-- `pkt["from"] = username`
unfoldable pub stamp : String → Packet → Packet
stamp username pkt = insert "from" (text username) pkt
