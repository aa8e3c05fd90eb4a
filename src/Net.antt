-- ===== src/Net.antt =====
-- IPv4 addresses, which are their `u32`, and URLs as the program asks a `Url` of reqwest.
pub mod Laws
use ahara_collector.Prelude.{ℕ, ◌/◌, ◌%◌, ◌^◌, Option, Text, ◌∷◌, ◌++◌}
use ahara_collector.Prelude.Decimal.{decimal}

-- `Ipv4Addr::to_string`
unfoldable pub show_ipv4 : ℕ → Text
unfolding decimal
show_ipv4 a =
    decimal (a / 2 ^ 24 % 256)
    ++ 46 ∷ decimal (a / 2 ^ 16 % 256)
    ++ 46 ∷ decimal (a / 2 ^ 8 % 256)
    ++ 46 ∷ decimal (a % 256)

-- `text` is what `as_str` gives.
pub record Url : Type 0 where
  pub text : Text
  pub scheme : Text
  pub host : Option Text
  pub port_or_known_default : Option ℕ
  pub path : Text
  pub query : Option Text
  pub fragment : Option Text
  pub username : Text
  pub password : Option Text
