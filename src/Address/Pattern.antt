-- ===== src/Address/Pattern.antt =====
-- The regular expressions that src/types.cpp uses, matched by backtracking as `std::regex_search` does,
-- and the texts that they describe.
use mathlib.Core.List.{append_assoc, append-nil}
use iec104_python.Base.{
  ℕ, ◌≤◌, ◌≡◌, ◌↔◌, ◌⊎◌, inl, inr, refl, sym, subst, arith, Bool, Bool-cases, true, false, ◌&&◌,
  ◌||◌, leb, [], ◌∷◌, ◌++◌,
}
use iec104_python.Text.{Text}

-- A character of a range, nothing, one after the other, and the first or else the second.
pub data Pattern : Type 0 where
  one_of : (low high : ℕ) → Pattern
  nothing : Pattern
  sequence : Pattern → Pattern → Pattern
  either : Pattern → Pattern → Pattern

-- `p?` and `p{3}`.
abbrev pub optional : Pattern → Pattern
optional p = either p nothing

abbrev pub thrice : Pattern → Pattern
thrice p = sequence p (sequence p p)

-- The pattern matches a beginning of the text, of which the continuation takes the rest.
unfoldable pub match_then : Pattern → Text → (Text → Bool) → Bool
match_then (one_of low high) [] k = false
match_then (one_of low high) (c ∷ cs) k = leb low c && leb c high && k cs
match_then nothing s k = k s
match_then (sequence p q) s k = match_then p s λ rest. match_then q rest k
match_then (either p q) s k = match_then p s k || match_then q s k

abbrev pub is_end : Text → Bool
is_end [] = true
is_end (c ∷ cs) = false

-- `^p$`
unfoldable pub matches : Pattern → Text → Bool
unfolding match_then
matches p s = match_then p s is_end

-- The texts that a pattern describes.
abbrev pub Describes : Pattern → Text → Type 0
Describes (one_of low high) w = (c : ℕ) × (w ≡ c ∷ []) × (low ≤ c) × (c ≤ high)
Describes nothing w = w ≡ []
Describes (sequence p q) w = (u : Text) × (v : Text) × (w ≡ u ++ v) × Describes p u × Describes q v
Describes (either p q) w = Describes p w ⊎ Describes q w

-- A match splits the text into what the pattern describes and what the continuation accepts.
split_of_match :
    (p : Pattern) (s : Text) (k : Text → Bool)
    → match_then p s k ≡ true
    → (w : Text) × (rest : Text) × (s ≡ w ++ rest) × Describes p w × (k rest ≡ true)
unfolding match_then
split_of_match (one_of low high) [] k h = absurd (cc h)
split_of_match (one_of low high) (c ∷ cs) k h =
    (c ∷ [], cs, refl, (c, refl, ground (arith, h), ground (arith, h)), ground (arith, h))
split_of_match nothing s k h = ([], s, refl, refl, h)
split_of_match (sequence p q) s k h =
    let (u, r, e, d, m) = split_of_match p s (λ rest. match_then q rest k) h in
    let (v, rest, e', d', m') = split_of_match q r k m in
    (u ++ v, rest, cc (e, e', append_assoc u v rest), (u, v, refl, d, d'), m')
split_of_match (either p q) s k h = elim (Bool-cases (match_then p s k)) [
  | inl left ↦ let (w, rest, e, d, m) = split_of_match p s k left in (w, rest, e, inl d, m)
  | inr other ↦
      let (w, rest, e, d, m) = split_of_match q s k (rw other at h) in (w, rest, e, inr d, m)
]

match_of_split :
    (p : Pattern) (w rest : Text) (k : Text → Bool)
    → Describes p w
    → k rest ≡ true
    → match_then p (w ++ rest) k ≡ true
unfolding match_then
match_of_split (one_of low high) w rest k (c, e, l, h) m = rw e (ground (arith, l, h, m))
match_of_split nothing w rest k e m = rw e m
match_of_split (sequence p q) w rest k (u, v, e, d, d') m =
    rw (e, append_assoc u v rest)
      (match_of_split p u (v ++ rest) (λ r. match_then q r k) d (match_of_split q v rest k d' m))
match_of_split (either p q) w rest k (inl d) m = ground (arith, match_of_split p w rest k d m)
match_of_split (either p q) w rest k (inr d) m = ground (arith, match_of_split q w rest k d m)

end_of_is_end : (s : Text) → is_end s ≡ true → s ≡ []
end_of_is_end [] h = refl
end_of_is_end (c ∷ cs) h = absurd (cc h)

-- A pattern matches exactly the texts that it describes.
pub matches_iff : (p : Pattern) (s : Text) → (matches p s ≡ true) ↔ Describes p s
unfolding matches
matches_iff p s = (
  λ h.
      let (w, rest, e, d, m) = split_of_match p s is_end h in
      subst (Describes p) (sym (cc (e, end_of_is_end rest m, append-nil w))) d,
  λ d.
      subst (λ t. match_then p t is_end ≡ true) (append-nil s)
        (match_of_split p s [] is_end d refl),
)
