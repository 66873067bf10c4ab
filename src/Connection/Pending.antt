-- ===== src/Connection/Pending.antt =====
-- `expectedResponseMap` of src/remote/Connection.cpp: 3 while an answer is awaited, then 0 or 1.
use iec104_python.Base.{
  ℕ, ◌≡◌, refl, Bool, true, ◌&&◌, ◌==◌, if◌then◌else◌, List, [], ◌∷◌, Option, none, some, arith,
}
use iec104_python.Connection.State.{CmdId}

abbrev pub Pending : Type 0
Pending = List (CmdId × ℕ)

abbrev pub same_id : CmdId → CmdId → Bool
same_id a b = a.ca == b.ca && a.type == b.type && a.ioa == b.ioa

pub same_id_refl : (a : CmdId) → same_id a a ≡ true
same_id_refl a = ground arith

unfoldable pub find : CmdId → Pending → Option ℕ
find id [] = none
find id ((k, v) ∷ m) = if same_id k id then some v else find id m

-- `m[id] = v`
unfoldable pub insert : CmdId → ℕ → Pending → Pending
insert id v [] = (id, v) ∷ []
insert id v ((k, w) ∷ m) = if same_id k id then (id, v) ∷ m else (k, w) ∷ insert id v m

unfoldable pub erase : CmdId → Pending → Pending
erase id [] = []
erase id ((k, v) ∷ m) = let rest = erase id m in if same_id k id then rest else (k, v) ∷ rest

pub find-insert :
    (j id : CmdId) (v : ℕ) (m : Pending)
    → find j (insert id v m) ≡ (if same_id id j then some v else find j m)
unfolding find insert
find-insert j id v [] = refl
find-insert j id v ((k, w) ∷ m) = ground (arith, find-insert j id v m)

pub find-erase :
    (j id : CmdId) (m : Pending) → find j (erase id m) ≡ (if same_id id j then none else find j m)
unfolding find erase
find-erase j id [] = ground arith
find-erase j id ((k, w) ∷ m) = ground (arith, find-erase j id m)
