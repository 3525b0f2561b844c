-- ===== src/Parsing/DirectionNames.antt =====
-- src/parsing.cpp: the names of the directions.
use libtd.Text.{Bytes, codes}
use libtd.Types.Tick.{Direction, up, down, unchanged}

unfoldable pub to_cstring : Direction → Bytes
to_cstring up = codes "up"
to_cstring down = codes "down"
to_cstring unchanged = codes "unchanged"
