-- ===== src/Payments/Json.antt =====
-- JSON values as `json.loads` makes them, for apps/payments/providers/zarinpal.py. What arrays and
-- fractions hold is left out, since the client never looks into them.
use visio_backend.Prelude.{ℤ, Bool, Option, none, some, Text, text_eq, if◌then◌else◌}

mutual
  pub data Json : Type 0 where
    null array fraction : Json
    boolean : Bool → Json
    integer : ℤ → Json
    text : Text → Json
    object : Fields → Json

  pub data Fields : Type 0 where
    no_fields : Fields
    field : Text → Json → Fields → Fields

-- `d.get(key)`
abbrev pub lookup : Text → Fields → Option Json
lookup key no_fields = none
lookup key (field k value rest) = if text_eq k key then some value else lookup key rest
