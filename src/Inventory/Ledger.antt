-- ===== src/Inventory/Ledger.antt =====
-- What backend/src/services/inventory.service.ts promises of one product: a ledger of three numbers,
-- without rows, locks, logs or slugs.
use vedhicfoods.Prelude.{ℕ, ◌+◌, ◌-◌, min, Option, none, some, List, [], ◌∷◌, leb, if◌then◌else◌}

pub record Levels : Type 0 where
  pub on_hand : ℕ
  pub reserved : ℕ
  pub sold : ℕ

pub data Move : Type 0 where
  reserve release confirm restock : Move

-- An entry of the ledger: `none` is a refusal.
unfoldable pub apply_move : Move → ℕ → Levels → Option Levels
apply_move reserve n l =
    if leb n l.on_hand
    then some (record { on_hand = l.on_hand - n; reserved = l.reserved + n; sold = l.sold })
    else none
apply_move release n l =
    some
      (record { on_hand = l.on_hand + min l.reserved n; reserved = l.reserved - n; sold = l.sold })
apply_move confirm n l =
    some
      (record { on_hand = l.on_hand; reserved = l.reserved - n; sold = l.sold + min l.reserved n })
apply_move restock n l =
    some (record { on_hand = l.on_hand + n; reserved = l.reserved; sold = l.sold - n })

abbrev pub continue_with : Option Levels → (Levels → Option Levels) → Option Levels
continue_with none next = none
continue_with (some l) next = next l

-- A sequence of entries, the first one first.
unfoldable pub apply_moves : List (Move × ℕ) → Levels → Option Levels
apply_moves [] l = some l
apply_moves ((move, n) ∷ moves) l = continue_with (apply_move move n l) (apply_moves moves)
