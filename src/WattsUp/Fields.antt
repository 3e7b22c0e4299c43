-- ===== src/WattsUp/Fields.antt =====
-- `watts_up_parse` on a record that is written as its documentation says, field by field.
use power_pack.Measure.{FloatOps}
use power_pack.Prelude.Decimal.{atoi}
use power_pack.Prelude.Int.{pos, negsuc}
use power_pack.Prelude.{ℕ, ◌≤◌, ◌≡◌, false, List, [], ◌∷◌, ◌++◌, ◌==◌, length, Bytes}
use power_pack.WattsUp.{is_value}

abbrev pub join : List Bytes → Bytes
join [] = []
join (f ∷ []) = f
join (f ∷ g ∷ fs) = f ++ b',' ∷ join (g ∷ fs)

abbrev pub HasNoComma : Bytes → Type 0
HasNoComma [] = Unit {0}
HasNoComma (x ∷ b) = ((x == b',') ≡ false) × HasNoComma b

-- Every field has a character, and none of them is a comma.
abbrev pub AllFields : List Bytes → Type 0
AllFields [] = Unit {0}
AllFields (f ∷ fs) = (1 ≤ length f) × HasNoComma f × AllFields fs

module _ (fl : FloatOps) (flag_skipped : is_value fl (fl.of_int (negsuc 1)) ≡ false) where
  open fl use {Double, of_int, narrow, div}

  abbrev divided : Bytes → ℕ → Double
  divided t d = div (of_int (atoi t)) (of_int (pos d))
