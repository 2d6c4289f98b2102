-- ===== src/Protocol/Spelling.antt =====
-- That `json_escape` of plugin/protocol.c spells its source as the grammar of JSON has it.
use qemu_mip.Prelude.{ℕ, ◌+◌, ◌*◌, ◌≤◌, ◌≡◌, ◌≢◌, [], ◌∷◌, Bytes}
use qemu_mip.Protocol.Print.{hex_value}

-- What the characters of a JSON string stand for, by RFC 8259, as far as \u escapes of a byte. Quotation marks,
-- backslashes and control characters do not stand for themselves.
pub data Spells : Bytes → Bytes → Type 0 where
  nothing : Spells [] []
  plain :
      (c : ℕ) {w s : Bytes} → 0x20 ≤ c → c ≢ 0x22 → c ≢ 0x5c → Spells w s → Spells (c ∷ w) (c ∷ s)
  quotation_mark : {w s : Bytes} → Spells w s → Spells (0x5c ∷ 0x22 ∷ w) (0x22 ∷ s)
  backslash : {w s : Bytes} → Spells w s → Spells (0x5c ∷ 0x5c ∷ w) (0x5c ∷ s)
  line_feed : {w s : Bytes} → Spells w s → Spells (0x5c ∷ 0x6e ∷ w) (0x0a ∷ s)
  carriage_return : {w s : Bytes} → Spells w s → Spells (0x5c ∷ 0x72 ∷ w) (0x0d ∷ s)
  tab : {w s : Bytes} → Spells w s → Spells (0x5c ∷ 0x74 ∷ w) (0x09 ∷ s)
  unicode :
      (a b c : ℕ) {w s : Bytes}
      → 16 * hex_value a + hex_value b ≡ c
      → Spells w s
      → Spells (0x5c ∷ 0x75 ∷ 0x30 ∷ 0x30 ∷ a ∷ b ∷ w) (c ∷ s)
