-- ===== src/Storage/Json.antt =====
-- JSON values, the payloads of the modelled clients.
use bollywood_hal.Prelude.{ℕ, String, Bool, List, [], ◌∷◌, Option, none, some}

mutual
  pub data Json : Type 0 where
    null : Json
    bool : Bool → Json
    num : ℕ → Json
    text : String → Json
    arr : Items → Json
    obj : Fields → Json

  pub data Items : Type 0 where
    nil : Items
    cons : Json → Items → Items

  pub data Fields : Type 0 where
    end : Fields
    field : String → Json → Fields → Fields

-- a list of texts
unfoldable pub texts : List String → Json
texts xs = arr (items xs)
  where
    items : List String → Items
    items [] = nil
    items (y ∷ ys) = cons (text y) (items ys)

abbrev pub optional : Option String → Json
optional none = null
optional (some s) = text s
