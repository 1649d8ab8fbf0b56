-- ===== src/Client/Reading.antt =====
-- How the client's handlers read fields that are there.
use chat_terminal.Common.{◌≡◌, refl, String, false, some, string_eq}
use chat_terminal.Common.Dict.{lookup}
use chat_terminal.Common.Exec.{ok}
use chat_terminal.Shared.Protocol.{Json, text, Packet, truthy}
use chat_terminal.Shared.Text.{is_empty}
use chat_terminal.Server.Ws.Fields.{get_or_null}
use chat_terminal.Client.World.{World, text_or, truthy_text}

pub text_or_lem :
    (default k s : String) (pkt : Packet) (w : World)
    → lookup k pkt ≡ some (text s)
    → text_or default k pkt w ≡ (ok s, w)
unfolding text_or
text_or_lem default k s pkt w h = rw (h, text_or) refl

pub truthy_text_lem :
    (k s : String) (pkt : Packet) (w : World)
    → lookup k pkt ≡ some (text s)
    → is_empty s ≡ false
    → truthy_text k pkt w ≡ (ok (some s), w)
unfolding truthy_text truthy
truthy_text_lem k s pkt w h there = rw (h, truthy_text, there) refl

pub get_or_null_lem :
    (k : String) (v : Json) (pkt : Packet) → lookup k pkt ≡ some v → get_or_null k pkt ≡ v
unfolding get_or_null
get_or_null_lem k v pkt h = rw (h, get_or_null) refl
