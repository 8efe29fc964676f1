-- ===== src/Prelude/Json.antt =====
-- A JSON value, as `JSON.parse` returns it, and the reading of a member.
use Prim.Native.String.{String}
use mathlib.Core.Bool.{Bool}
use mathlib.Core.Option.{Option, none, some}
use webmcp_security_lab.Prelude.Tests.{◌==◌, string_eq, if◌then◌else◌}

mutual
  pub data Json : Type 0 where
    null : Json
    boolean : Bool → Json
    -- By the text that `JSON.stringify` writes for it.
    number : String → Json
    text : String → Json
    array : Items → Json
    object : Members → Json

  pub data Items : Type 0 where
    no_items : Items
    item : Json → Items → Items

  pub data Members : Type 0 where
    no_members : Members
    member : String → Json → Members → Members

-- `value[key]` of an object; `none` is `undefined`.
unfoldable pub member_of : String → Members → Option Json
member_of key no_members = none
member_of key (member k v rest) = if k == key then some v else member_of key rest

-- `value === text`, where the value may be undefined.
unfoldable pub is_text : String → Option Json → Bool
is_text s (some (text t)) = t == s
is_text s _ = Bool.false
