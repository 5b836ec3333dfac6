-- ===== src/Json.antt =====
-- The values of `JSON.parse`. An object's members are pairs, the first of a name being the one that
-- is read. `negative n` is -n; a number that is no integer is kept by a label alone.
use teti_bot.Base.{
  ℕ, String, Bool, true, false, List, [], ◌∷◌, ◌==◌, text_equality, if◌then◌else◌, Option, none,
  some, ◌≡◌, refl, ap,
}

mutual
  pub data Json : Type 0 where
    null : Json
    bool : Bool → Json
    int : ℕ → Json
    negative : ℕ → Json
    fraction : ℕ → Json
    str : String → Json
    arr : Items → Json
    obj : Members → Json

  pub data Items : Type 0 where
    nil : Items
    cons : Json → Items → Items

  pub data Members : Type 0 where
    end : Members
    member : String → Json → Members → Members

-- The properties of an object that its interface does not name.
abbrev pub Extra : Type 0
Extra = List (String × Json)

-- `value[field] !== undefined`.
abbrev pub has_field : String → Extra → Bool
has_field k [] = false
has_field k ((j, v) ∷ m) = if j == k then true else has_field k m

abbrev pub items_of : Items → List Json
items_of nil = []
items_of (cons v vs) = v ∷ items_of vs

abbrev pub properties_of : Members → Extra
properties_of end = []
properties_of (member k v m) = (k, v) ∷ properties_of m

abbrev pub members_of : Extra → Members
members_of [] = end
members_of ((k, v) ∷ ps) = member k v (members_of ps)

-- `value[field]`, where `none` is `undefined`.
abbrev pub property : String → Extra → Option Json
property k [] = none
property k ((j, v) ∷ m) = if j == k then some v else property k m

pub properties_of-members_of : (ps : Extra) → properties_of (members_of ps) ≡ ps
properties_of-members_of [] = refl
properties_of-members_of (p ∷ ps) = ap (λ qs. p ∷ qs) (properties_of-members_of ps)
