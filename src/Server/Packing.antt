-- ===== src/Server/Packing.antt =====
-- The packing loop of `sendInterrogationResponse`: no object is lost, repeated or moved.
use iec104_python.Base.{
  ◌≡◌, ◌≢◌, refl, ap, ◌∙◌, Bool, true, false, List, [], ◌∷◌, ◌++◌, All, Bool-cases, inl, inr,
}
use mathlib.Core.List.{append-nil, append_assoc}

module _ {A : Type 0} (fits : List A → A → Bool) where
  -- One group: the objects of the open ASDU, whether the last object was added to it, and the
  -- objects to come. The result has the ASDUs in the order in which they are sent.
  unfoldable pub pack_loop : List A → (added : Bool) → List A → List (List A)
  pack_loop open_asdu true [] = open_asdu ∷ []
  pack_loop open_asdu false [] = []
  pack_loop open_asdu added (m ∷ ms) = elim (fits open_asdu m) [
    | true ↦ pack_loop (open_asdu ++ m ∷ []) true ms
    | false ↦ elim (fits [] m) [
      | true ↦ open_asdu ∷ pack_loop (m ∷ []) true ms
      | false ↦ open_asdu ∷ pack_loop [] false ms
    ]
  ]

  unfoldable pub pack : List A → List (List A)
  unfolding pack_loop
  pack ms = pack_loop [] false ms

  abbrev pub concat : List (List A) → List A
  concat [] = []
  concat (x ∷ xs) = x ++ concat xs

  -- The library accepted each object on top of those before it.
  abbrev pub Accepted : List A → List A → Type 0
  Accepted before [] = Unit {0}
  Accepted before (m ∷ ms) = (fits before m ≡ true) × Accepted (before ++ m ∷ []) ms

  abbrev pub IsPacket : List A → Type 0
  IsPacket ms = (ms ≢ []) × Accepted [] ms

  Accepted-snoc :
      (before xs : List A) (m : A)
      → Accepted before xs
      → fits (before ++ xs) m ≡ true
      → Accepted before (xs ++ m ∷ [])
  Accepted-snoc before [] m h f = (rw (append-nil before) at f, tt)
  Accepted-snoc before (x ∷ xs) m h f =
      (h.0, Accepted-snoc (before ++ x ∷ []) xs m h.1 (rw (append_assoc before (x ∷ []) xs) f))

  snoc-ne-nil : (xs : List A) (m : A) → xs ++ m ∷ [] ≢ []
  snoc-ne-nil [] m e = cc
  snoc-ne-nil (x ∷ xs) m e = cc

  abbrev Result : List A → List A → List (List A) → Type 0
  Result open_asdu ms packets = (concat packets ≡ open_asdu ++ ms) × All IsPacket packets

  loop-Result :
      (open_asdu ms : List A)
      → All (λ m. fits [] m ≡ true) ms
      → IsPacket open_asdu
      → Result open_asdu ms (pack_loop open_asdu true ms)
  unfolding pack_loop
  loop-Result open_asdu [] h p = (refl, (p, tt))
  loop-Result open_asdu (m ∷ ms) h p = elim (Bool-cases (fits open_asdu m)) [
    | inl yes_fits ↦
        let grown = open_asdu ++ m ∷ [] in
        let ih =
          loop-Result grown ms h.1
            (snoc-ne-nil open_asdu m, Accepted-snoc [] open_asdu m p.1 yes_fits) in
        rw (yes_fits, pack_loop) (ih.0 ∙ append_assoc open_asdu (m ∷ []) ms, ih.1)
    | inr full ↦
        let ih = loop-Result (m ∷ []) ms h.1 (λ e. cc, (h.0, tt)) in
        rw (full, pack_loop) (rw (h.0, pack_loop) (ap (◌++◌ open_asdu) ih.0, (p, ih.1)))
  ]

  -- Where every object fits into an empty ASDU, the ASDUs that are sent for a group hold its objects,
  -- each once and in their order, and no others. None is empty, and each object was accepted on top
  -- of those before it.
  pub pack_lem :
      (ms : List A)
      → All (λ m. fits [] m ≡ true) ms
      → (concat (pack ms) ≡ ms) × All IsPacket (pack ms)
  unfolding pack pack_loop
  pack_lem [] h = (refl, tt)
  pack_lem (m ∷ ms) h = rw (h.0, pack_loop) (loop-Result (m ∷ []) ms h.1 (λ e. cc, (h.0, tt)))
