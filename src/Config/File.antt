-- ===== src/Config/File.antt =====
-- `config_parse_file` of config.c: the list that the rest of the program is given.
use magic_lantern.Common.{Option, none, some, List, [], ◌∷◌}
use magic_lantern.Common.Text.{Text}
use magic_lantern.Config.{ConfigVar, Loaded, loaded, failed, overran, no_fuel, config_parse}

-- "config.file"
abbrev pub head_name : Text
head_name = b'c' ∷ b'o' ∷ b'n' ∷ b'f' ∷ b'i' ∷ b'g' ∷ b'.' ∷ b'f' ∷ b'i' ∷ b'l' ∷ b'e' ∷ []

-- "config.failure"
abbrev pub fail_name : Text
fail_name =
    b'c' ∷ b'o' ∷ b'n' ∷ b'f' ∷ b'i' ∷ b'g' ∷ b'.' ∷ b'f' ∷ b'a' ∷ b'i' ∷ b'l' ∷ b'u' ∷ b'r' ∷ b'e'
    ∷ []

-- The entry `head`, which holds the name of the file, before the others.
unfoldable pub with_head : Text → Loaded → Loaded
with_head filename (loaded vars configs) =
    loaded vars (record { name = head_name; value = filename } ∷ configs)
with_head filename (failed vars) = loaded vars (record { name = head_name; value = filename } ∷ [])
with_head filename overran = overran
with_head filename no_fuel = no_fuel

-- `file` is what the file holds, or `none` if it cannot be opened. A list that could not be parsed is NULL, so the head is
-- alone.
unfoldable pub config_parse_file : List ConfigVar → Text → Option Text → Loaded
unfolding with_head
config_parse_file vars filename none =
    with_head filename (loaded vars (record { name = fail_name; value = b'1' ∷ [] } ∷ []))
config_parse_file vars filename (some file) = with_head filename (config_parse vars file)
