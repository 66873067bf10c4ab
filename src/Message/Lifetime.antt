-- ===== src/Message/Lifetime.antt =====
-- The structures that are created for the object of a point are those that are destroyed.
use iec104_python.Base.{
  ◌<◌, ◌≡◌, refl, sym, ◌∙◌, arith, Bool, true, false, not, ◌==◌, ◌&&◌, ◌||◌, ◌⊎◌, inl, inr, elem,
  List, [], ◌∷◌, table, table-entry,
}
use iec104_python.Text.{Text, same_text, same_text-eq}
use iec104_python.Protocol.{TypeId}
use iec104_python.Point.Data.{DataPoint}
use iec104_python.Point.Valid.{is_ok}
use iec104_python.Message.Outgoing.{point_message, point_command}
use iec104_python.Message.Objects.{sendable_types, command_types, point_message_objects}
use iec104_python.Message.Structures.{
  message_created, message_destroyed, command_created, command_destroyed,
}

abbrev pub is_made : (created : List Text) → Bool
is_made [] = false
is_made (structure ∷ structures) = true

abbrev same_texts : List Text → List Text → Bool
same_texts [] [] = true
same_texts (x ∷ xs) (y ∷ ys) = same_text x y && same_texts xs ys
same_texts _ _ = false

same_texts-eq : (xs ys : List Text) → same_texts xs ys ≡ true → xs ≡ ys
same_texts-eq [] [] h = refl
same_texts-eq [] (y ∷ ys) h = absurd (cc h)
same_texts-eq (x ∷ xs) [] h = absurd (cc h)
same_texts-eq (x ∷ xs) (y ∷ ys) h =
    let (first, rest) = both (same_text x y) (same_texts xs ys) h in
    cc (same_text-eq x y first, same_texts-eq xs ys rest)
  where
    both : (a b : Bool) → (a && b) ≡ true → (a ≡ true) × (b ≡ true)
    both a b e = ground (arith, e)

-- What is created is destroyed as what it is, if anything is created.
abbrev is_freed : (created destroyed : List Text) → Bool
is_freed [] destroyed = true
is_freed (structure ∷ structures) destroyed = same_texts destroyed (structure ∷ structures)

abbrev agree : Bool → Bool → Bool
agree true b = b
agree false b = not b

abbrev facts : TypeId → Bool
facts t =
    agree (is_made (message_created t)) (elem t sendable_types)
    && agree (is_made (command_created t)) (elem t command_types)
    && ((t == 15 || t == 37) || is_freed (message_created t) (message_destroyed t))
    && is_freed (command_created t) (command_destroyed t)

facts_hold : table facts 256 ≡ true
unfolding table message_created message_destroyed command_created command_destroyed same_text
facts_hold = refl

-- The structures that are destroyed are those that were created, if any were.
abbrev pub IsFreed : (created destroyed : List Text) → Type 0
IsFreed [] destroyed = Unit
IsFreed (structure ∷ structures) destroyed = destroyed ≡ structure ∷ structures

is_freed-IsFreed :
    (created destroyed : List Text) → is_freed created destroyed ≡ true → IsFreed created destroyed
is_freed-IsFreed [] destroyed h = tt
is_freed-IsFreed (structure ∷ structures) destroyed h =
    same_texts-eq destroyed (structure ∷ structures) h

plain_iff : (t : TypeId) → (t == 15 || t == 37) ≡ true → (t ≡ 15) ⊎ (t ≡ 37)
plain_iff t h = ground (arith, h)

combine :
    (m c sendable command plain freed command_freed : Bool)
    → (agree m sendable && agree c command && (plain || freed) && command_freed) ≡ true
    → (m ≡ sendable) × (c ≡ command) × ((plain ≡ true) ⊎ (freed ≡ true)) × (command_freed ≡ true)
combine m c sendable command plain freed command_freed h = ground arith

-- A point can be made a message exactly if an object is created for its type, and likewise a command;
-- what the destructor destroys is all the structures that were created. The exceptions are the types
-- M_IT_NA_1 (15) and M_IT_TB_1 (37), of which only the first part is claimed.
pub structures-IsFreed :
    (p : DataPoint)
    → p.type < 256
    → (is_ok (point_message p) ≡ is_made (message_created p.type))
      × (is_ok (point_command p) ≡ is_made (command_created p.type))
      × ((p.type ≡ 15)
          ⊎ (p.type ≡ 37)
          ⊎ IsFreed (message_created p.type) (message_destroyed p.type))
      × IsFreed (command_created p.type) (command_destroyed p.type)
structures-IsFreed p lt =
    let (m, c, freed, command_freed) =
      combine (is_made (message_created p.type)) (is_made (command_created p.type))
        (elem p.type sendable_types) (elem p.type command_types) (p.type == 15 || p.type == 37)
        (is_freed (message_created p.type) (message_destroyed p.type))
        (is_freed (command_created p.type) (command_destroyed p.type))
        (table-entry facts 256 lt facts_hold) in
    let (sent, commanded, a, b) = point_message_objects p lt in
    (
      sent ∙ sym m,
      commanded ∙ sym c,
      elim freed [
        | inl plain ↦ elim (plain_iff p.type plain) [ inl a ↦ inl a | inr b ↦ inr (inl b) ]
        | inr h ↦ inr (inr (is_freed-IsFreed (message_created p.type) (message_destroyed p.type) h))
      ],
      is_freed-IsFreed (command_created p.type) (command_destroyed p.type) command_freed,
    )
