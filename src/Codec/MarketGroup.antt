-- ===== src/Codec/MarketGroup.antt =====
-- src/types.cpp: the JSON form of `market_group`.
use libtd.Base.{◌≡◌, Result, ok, ◌>>=◌, [], ◌∷◌}
use libtd.Base.Int.{IsInt32}
use libtd.Json.{JsonLib, int_at, string_at, bool_at, codec_laws}
use libtd.Types.Market.{MarketGroup}

-- Every integer field holds a value of its C++ type.
pub record FitsInt (m : MarketGroup) : Type 0 where
  pub id : IsInt32 m.id

module _ {D : Type 0} (J : JsonLib D) where
  open J use {Json, of_int, of_bool, of_string, of_double, object}

  unfoldable pub to_json : MarketGroup → Json
  to_json m = object (
      ("ID", of_int m.id)
      ∷ ("Name", of_string m.name)
      ∷ ("IsSuperGroup", of_bool m.is_super_group)
      ∷ ("IsWhiteLabelPopularMarket", of_bool m.is_white_label_popular_market)
      ∷ ("HasSubscription", of_bool m.has_subscription)
      ∷ [])

  unfoldable pub from_json : Json → Result MarketGroup
  from_json j = do
    id ← int_at J j "ID"
    name ← string_at J j "Name"
    is_super_group ← bool_at J j "IsSuperGroup"
    is_white_label_popular_market ← bool_at J j "IsWhiteLabelPopularMarket"
    has_subscription ← bool_at J j "HasSubscription"
    ok (record {
      id = id;
      name = name;
      is_super_group = is_super_group;
      is_white_label_popular_market = is_white_label_popular_market;
      has_subscription = has_subscription;
    })

  -- from_json reads back the market group that to_json writes, if the integers fit.
  pub from_json-market_group : (m : MarketGroup) → FitsInt m → from_json (to_json m) ≡ ok m
  unfolding from_json to_json
  from_json-market_group m h = simp (codec_laws, J, h.id)
