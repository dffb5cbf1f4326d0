-- ===== src/Common/Value.antt =====
-- The values of the source language that cross the modelled interfaces (JSON-like data), and
-- dictionaries of them in insertion order.
use mathlib.Core.Bool.{Bool}
use mathlib.Core.Option.{Option, none, some}
use agentic_fraud_decisionin.Common.Tests.{if◌then◌else◌}
use agentic_fraud_decisionin.Common.Text.{Str, str_eq}
use agentic_fraud_decisionin.Common.Int.{ℤ}
use agentic_fraud_decisionin.Common.Float.{Float}

mutual
  pub data Value : Type 0 where
    null : Value
    bool : Bool → Value
    int : ℤ → Value
    float : Float → Value
    str : Str → Value
    list : Items → Value
    dict : Fields → Value

  pub data Items : Type 0 where
    nil : Items
    cons : Value → Items → Items

  pub data Fields : Type 0 where
    empty : Fields
    entry : Str → Value → Fields → Fields

-- `d.get(key)`, where `none` means that the key is absent.
unfoldable pub get : Str → Fields → Option Value
get k empty = none
get k (entry j v rest) = if str_eq k j then some v else get k rest
