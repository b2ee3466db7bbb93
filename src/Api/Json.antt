-- ===== src/Api/Json.antt =====
-- What `json.loads` returns. Texts are lists of code points, as the code's patterns walk them; a
-- float is the number of its 64 bits.
use alorair_home_assistant.Base.{ℕ, List, Bool, String, if◌then◌else◌}
use alorair_home_assistant.Base.Int.{ℤ}
use alorair_home_assistant.Base.Dict.{◌=s◌}

mutual
  pub data Json : Type 0 where
    null : Json
    float : ℕ → Json
    bool : Bool → Json
    int : ℤ → Json
    str : List ℕ → Json
    arr : Items → Json
    obj : Fields → Json

  pub data Items : Type 0 where
    nil : Items
    cons : Json → Items → Items

  pub data Fields : Type 0 where
    end : Fields
    field : String → Json → Fields → Fields

-- `d.get(key)`
unfoldable pub get : String → Fields → Json
get key end = Json.null
get key (field k v d) = if k =s key then v else get key d

-- `key in d`
unfoldable pub has_key : String → Fields → Bool
has_key key end = Bool.false
has_key key (field k v d) = if k =s key then Bool.true else has_key key d
