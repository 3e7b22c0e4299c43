-- ===== src/Fluke/Reading.antt =====
-- fluke_189_read and fluke_189_parse together: what becomes of the line of a reply to QM.
use power_pack.Prelude.{ℕ, ◌+◌, Bool, false, ◌||◌, [], ◌∷◌, ◌++◌, if◌then◌else◌, Bytes}

-- A byte with the property occurs.
unfoldable pub has : (ℕ → Bool) → Bytes → Bool
has p [] = false
has p (x ∷ b) = p x || has p b

-- The prefix of a unit.
pub data Prefix : Type 0 where
  plain milli micro : Prefix

-- Whether it is volts, or else amperes, and its prefix: as the meter writes it, and as meter.h does.
unfoldable pub unit_text : Prefix → Bool → Bytes
unit_text plain v = (if v then b'V' else b'A') ∷ []
unit_text milli v = b'm' ∷ (if v then b'V' else b'A') ∷ []
unit_text micro v = b'u' ∷ (if v then b'V' else b'A') ∷ []

unfoldable pub unit_flags : Prefix → Bool → ℕ
unit_flags plain v = if v then 0x000008 else 0x000004
unit_flags milli v = 0x040000 + (if v then 0x000008 else 0x000004)
unit_flags micro v = 0x020000 + (if v then 0x000008 else 0x000004)

-- The line of a reply: a name, a comma, a sign, the number and the unit.
abbrev pub reading_line : Bytes → ℕ → Bytes → Prefix → Bool → Bytes
reading_line name sign num p v = name ++ b',' ∷ sign ∷ (num ++ b' ' ∷ unit_text p v)
