-- ===== src/Server/Files/Tests.antt =====
-- Witnesses of the files and their chunks.
use chat_terminal.Common.{◌≡◌, refl, false, string_eq, nat_eq}
use chat_terminal.Server.World.Samples.{world}
use chat_terminal.Server.Files.{get_expired_files}
use chat_terminal.Server.Files.Expiry.{names}

f2_not_named : names "f2" (get_expired_files 1000 world) ≡ false
unfolding get_expired_files
f2_not_named = refl
