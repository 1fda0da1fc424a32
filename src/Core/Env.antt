-- ===== src/Core/Env.antt =====
-- What an installation is given: its directories, and the crates that the core calls.
use saiai_client.Prelude.{ℕ, Option, List, Text}
use saiai_client.Core.Error.{Outcome}
use saiai_client.Core.Config.Wire.{ConfigText}
use saiai_client.Core.Gateway.Parse.{UrlCrate}
use saiai_client.Core.Gateway.{UrlView}
use saiai_client.Core.Artifacts.{Crates}
use saiai_client.Core.Paths.{AppPaths}

pub record Env : Type 1 where
  pub paths : AppPaths
  pub crates : Crates
  -- the n-th identifier that `Uuid::new_v4` hands out
  pub uuid : ℕ → Text
  -- serde_json::to_vec_pretty and serde_json::from_slice
  pub to_json : ConfigText → Outcome (List ℕ)
  pub from_json : List ℕ → Option ConfigText
  -- str::as_bytes and String::from_utf8
  pub utf8 : Text → List ℕ
  pub from_utf8 : List ℕ → Option Text
  pub url_crate : UrlCrate
  -- the url crate's view of a Gateway URL
  pub url_view : Text → UrlView
