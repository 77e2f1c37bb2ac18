-- ===== src/Outside/Bridge.antt =====
-- What the C++ side writes as JSON is read by cjson as the table with the same texts.
-- `HasText` says that `dump` gives a text that cjson can read and write again: the strings are UTF-8,
-- the numbers are finite, and the nesting is within the limit of cjson, 1000.
use crunchytask.Common.{◌≡◌, String, true, some}
use crunchytask.Outside.Floats.{Floats}
use crunchytask.Outside.Json.{JsonLib}
use crunchytask.Outside.Lua.{Lua}

pub record Bridge (F : Floats) (J : JsonLib F.Double) (L : Lua F.Double J.Text) : Type 0 where
  pub decode-dump :
      (j : J.Json)
      → J.HasText j
      → J.is_object j ≡ true
      → (v : L.Value) × (L.decode (J.dump j) ≡ some v)
        × (L.is_table v ≡ true)
        × (L.encodable v ≡ true)
        × ((key s : String) → J.member j key ≡ some (J.of_string s) → L.index v key ≡ L.of_text s)
