-- ===== src/Prelude/Url.antt =====
-- What the source reads from the runtime's `URL`. The parser is a parameter of the modules that use
-- it: `none` is a text for which `new URL` throws.
use Prim.Native.String.{String}
use mathlib.Core.Option.{Option}

pub record Url : Type 0 where
  -- With its colon, as in "https:".
  pub protocol : String
  pub origin : String
  pub hostname : String
  pub port : String
  pub username : String
  pub password : String
  -- `toString()` once `search` and `hash` are set to "".
  pub bare : String

abbrev pub UrlParser : Type 0
UrlParser = String → Option Url
