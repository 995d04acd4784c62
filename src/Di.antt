-- ===== src/Di.antt =====
-- src/common/di/: interfaces as values, and the classes that say that they implement them. A symbol
-- of `Symbol.for` is its name. A class comes with its ancestors, the nearest first, which is the way
-- in which reflect-metadata looks for what is defined on a class.
use lidofinance_lido_council.Shared.{
  ℕ, ◌≡◌, String, Bool, false, ◌||◌, Option, none, some, List, [], ◌∷◌, ◌++◌, ◌==◌, str_eq,
  if◌then◌else◌, arith,
}

-- The map of the global object: the tags that were made
abbrev pub InterfaceMap : Type 0
InterfaceMap = List String

unfoldable pub includes_tag : String → List String → Bool
includes_tag tag [] = false
includes_tag tag (t ∷ tags) = str_eq t tag || includes_tag tag tags

-- `createInterface`: the tag of the name, and the map with it
unfoldable pub create_interface : String → InterfaceMap → String × InterfaceMap
unfolding includes_tag
create_interface name interface_map =
    if includes_tag name interface_map
    then (name, interface_map)
    else (name, interface_map ++ name ∷ [])

-- The tags that each class was given
abbrev pub Metadata : Type 0
Metadata = List (ℕ × List String)

unfoldable pub own_metadata : ℕ → Metadata → Option (List String)
own_metadata class_id [] = none
own_metadata class_id ((id, tags) ∷ metadata) =
    if id == class_id then some tags else own_metadata class_id metadata

abbrev or_inherited : Option (List String) → Option (List String) → Option (List String)
or_inherited none inherited = inherited
or_inherited (some tags) inherited = some tags

-- `Reflect.getMetadata`
unfoldable pub get_metadata : List ℕ → Metadata → Option (List String)
unfolding own_metadata
get_metadata [] metadata = none
get_metadata (class_id ∷ ancestors) metadata =
    or_inherited (own_metadata class_id metadata) (get_metadata ancestors metadata)

abbrev tags_of : Option (List String) → List String
tags_of none = []
tags_of (some tags) = tags

-- `implementationOf`; what is defined last hides what was defined before.
unfoldable pub implementation_of : String → ℕ → List ℕ → Metadata → Metadata
unfolding get_metadata
implementation_of tag target ancestors metadata =
    (target, tag ∷ tags_of (get_metadata (target ∷ ancestors) metadata)) ∷ metadata

-- `doesImplement`; `none` is `undefined`.
unfoldable pub does_implement : Option (List ℕ) → String → Metadata → Bool
unfolding includes_tag get_metadata
does_implement none tag metadata = false
does_implement (some constructors) tag metadata =
    includes_tag tag (tags_of (get_metadata constructors metadata))

-- An instance of a decorated class implements the new interface and those that it implemented.
does_implement-implementation_of :
    (tag other : String) (target : ℕ) (ancestors : List ℕ) (metadata : Metadata)
    → does_implement
        (some (target ∷ ancestors))
        other
        (implementation_of tag target ancestors metadata)
      ≡ str_eq tag other || does_implement (some (target ∷ ancestors)) other metadata
unfolding does_implement implementation_of get_metadata own_metadata includes_tag
does_implement-implementation_of tag other target ancestors metadata = ground arith
