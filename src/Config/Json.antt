-- ===== src/Config/Json.antt =====
-- Marshal and Unmarshal of config/config.go: which decoder reads a value, and which nil pointers are filled on
-- the way. The three decoders are parameters.
use mathlib.Core.Option
use opendevops_codo_golang_s.Common.{
  Bool, Option, false, if◌then◌else◌, ◌≡◌, refl, some, none, true,
}

-- What the type of a value implements.
pub record Methods : Type 0 where
  pub is_json : Bool
  pub is_proto : Bool

-- A value as Unmarshal looks at it: a chain of pointers, each nil or not, with the methods of each type. Behind
-- a nil pointer stands what reflect.New makes of the element type.
pub data Target : Type 0 where
  plain : Methods → Target
  pointer : Methods → (nil : Bool) → Target → Target

abbrev methods : Target → Methods
methods (plain m) = m
methods (pointer m nil t) = m

-- MarshalJSON or UnmarshalJSON of the value, protojson, and encoding/json.
pub data Codec : Type 0 where
  own proto json : Codec

-- Marshal
unfoldable marshal : Target → Codec
marshal t = if (methods t).is_json then own else if (methods t).is_proto then proto else json

-- The loop over the pointers below the first one, which can be set.
unfoldable fill : Target → Target
fill (plain m) = plain m
fill (pointer m nil t) = pointer m false (fill t)

-- The loop of Unmarshal: `none` where it sets a nil pointer that cannot be set, as that in an interface.
unfoldable fill_below : Target → Option Target
unfolding fill
fill_below (plain m) = some (plain m)
fill_below (pointer m true t) = none
fill_below (pointer m false t) = some (pointer m false (fill t))

-- reflect.Indirect
unfoldable indirect : Target → Target
indirect (plain m) = plain m
indirect (pointer m nil t) = t

-- Behind the loop.
abbrev chosen : Target → Codec × Target
chosen t = (if (methods (indirect t)).is_proto then proto else json, t)

-- Unmarshal: the decoder that is called, and the value that it is called on.
unfoldable pub unmarshal : Target → Option (Codec × Target)
unfolding fill_below indirect
unmarshal t =
    if (methods t).is_json
    then some (own, t)
    else if (methods t).is_proto
    then some (proto, t)
    else Option.map chosen (fill_below t)

-- No pointer of the chain is nil.
abbrev pub IsFilled : Target → Type 0
IsFilled (plain m) = Unit
IsFilled (pointer m nil t) = (nil ≡ false) × IsFilled t

fill-IsFilled : (t : Target) → IsFilled (fill t)
unfolding fill
fill-IsFilled (plain m) = tt
fill-IsFilled (pointer m nil t) = (refl, fill-IsFilled t)

methods-fill : (t : Target) → methods (fill t) ≡ methods t
unfolding fill
methods-fill (plain m) = refl
methods-fill (pointer m nil t) = refl

-- On a pointer that is not nil, to a type without a decoder of its own, Unmarshal does not panic, and no pointer
-- below it is nil when the decoder runs: protojson where the pointer is to a message, else encoding/json.
pub unmarshal-pointer :
    (m : Methods) (t : Target)
    → m.is_json ≡ false
    → m.is_proto ≡ false
    → (u : Target) × (unmarshal (pointer m false t)
        ≡ some (if (methods t).is_proto then proto else json, u))
      × IsFilled u
unfolding unmarshal fill_below indirect
unmarshal-pointer m t no_json no_proto =
    (pointer m false (fill t), rw (no_json, no_proto, methods-fill t) refl, (refl, fill-IsFilled t))
