-- ===== src/Model/Json.antt =====
-- JSON values, as the JSONB columns hold them and as the language model returns them.
use ai_badge.Prelude.{if◌then◌else◌, ◌==◌, nat_eq, string_eq, String, Bool, Option, none, some, ℕ}

mutual
  pub data Json : Type 0 where
    null : Json
    bool : Bool → Json
    num str : String → Json
    -- `str(uuid)`
    uuid : ℕ → Json
    arr : Items → Json
    obj : Fields → Json

  pub data Items : Type 0 where
    no_items : Items
    item : Json → Items → Items

  pub data Fields : Type 0 where
    end : Fields
    field : String → Json → Fields → Fields

-- `payload.get(key)`
abbrev pub get : String → Fields → Option Json
get key end = none
get key (field k v rest) = let found = get key rest in if k == key then some v else found

-- `payload.get(key, default)`
abbrev pub get_or : String → Json → Fields → Json
get_or key default payload = elim (get key payload) [ none ↦ default | some v ↦ v ]
