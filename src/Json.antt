-- ===== src/Json.antt =====
-- JSON values, as encoding/json decodes them into `any`.
use infra_shelf.Common.{Bytes, Bool, [], if◌then◌else◌}
use infra_shelf.Common.Text.{str_eq}

mutual
  pub data Json : Type 0 where
    null : Json
    bool : Bool → Json
    num : Bytes → Json
    text : Bytes → Json
    array : Items → Json
    object : Fields → Json

  pub data Items : Type 0 where
    nil : Items
    cons : Json → Items → Items

  pub data Fields : Type 0 where
    end : Fields
    field : Bytes → Json → Fields → Fields

-- `m[key]`: a missing key is `nil`.
unfoldable pub get : Bytes → Fields → Json
unfolding str_eq
get key end = null
get key (field k v fs) = if str_eq k key then v else get key fs

-- `v, _ := x.(string)`: another type gives the empty text.
abbrev pub as_text : Json → Bytes
as_text (text s) = s
as_text _ = []
