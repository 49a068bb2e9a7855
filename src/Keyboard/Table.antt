-- ===== src/Keyboard/Table.antt =====
-- The characters of `keymap` in kernel/keyboard.c: for each make code the one alone and the one with
-- shift, 0 where the key has none (`INV`).
use os_store.Base.{ℕ, List, [], ◌∷◌, get_or}

abbrev keymap : List (ℕ × ℕ)
keymap =
    (0x00, 0x00)
    ∷ (0x1b, 0x1b)
    ∷ (0x31, 0x21)
    ∷ (0x32, 0x40)
    ∷ (0x33, 0x23)
    ∷ (0x34, 0x24)
    ∷ (0x35, 0x25)
    ∷ (0x36, 0x5e)
    ∷ (0x37, 0x26)
    ∷ (0x38, 0x2a)
    ∷ (0x39, 0x28)
    ∷ (0x30, 0x29)
    ∷ (0x2d, 0x5f)
    ∷ (0x3d, 0x2b)
    ∷ (0x08, 0x08)
    ∷ (0x09, 0x09)
    ∷ (0x71, 0x51)
    ∷ (0x77, 0x57)
    ∷ (0x65, 0x45)
    ∷ (0x72, 0x52)
    ∷ (0x74, 0x54)
    ∷ (0x79, 0x59)
    ∷ (0x75, 0x55)
    ∷ (0x69, 0x49)
    ∷ (0x6f, 0x4f)
    ∷ (0x70, 0x50)
    ∷ (0x5b, 0x7b)
    ∷ (0x5d, 0x7d)
    ∷ (0x0a, 0x0a)
    ∷ (0x00, 0x00)
    ∷ (0x61, 0x41)
    ∷ (0x73, 0x53)
    ∷ (0x64, 0x44)
    ∷ (0x66, 0x46)
    ∷ (0x67, 0x47)
    ∷ (0x68, 0x48)
    ∷ (0x6a, 0x4a)
    ∷ (0x6b, 0x4b)
    ∷ (0x6c, 0x4c)
    ∷ (0x3b, 0x3a)
    ∷ (0x27, 0x22)
    ∷ (0x60, 0x7e)
    ∷ (0x00, 0x00)
    ∷ (0x5c, 0x7c)
    ∷ (0x7a, 0x5a)
    ∷ (0x78, 0x58)
    ∷ (0x63, 0x43)
    ∷ (0x76, 0x56)
    ∷ (0x62, 0x42)
    ∷ (0x6e, 0x4e)
    ∷ (0x6d, 0x4d)
    ∷ (0x2c, 0x3c)
    ∷ (0x2e, 0x3e)
    ∷ (0x2f, 0x3f)
    ∷ (0x00, 0x00)
    ∷ (0x2a, 0x2a)
    ∷ (0x00, 0x00)
    ∷ (0x20, 0x20)
    ∷ (0x00, 0x00)
    ∷ (0x00, 0x00)
    ∷ (0x00, 0x00)
    ∷ (0x00, 0x00)
    ∷ (0x00, 0x00)
    ∷ (0x00, 0x00)
    ∷ (0x00, 0x00)
    ∷ (0x00, 0x00)
    ∷ (0x00, 0x00)
    ∷ (0x00, 0x00)
    ∷ (0x00, 0x00)
    ∷ (0x00, 0x00)
    ∷ (0x00, 0x00)
    ∷ (0x37, 0x00)
    ∷ (0x38, 0x00)
    ∷ (0x39, 0x00)
    ∷ (0x2d, 0x2d)
    ∷ (0x34, 0x00)
    ∷ (0x35, 0x00)
    ∷ (0x36, 0x00)
    ∷ (0x2b, 0x2b)
    ∷ (0x31, 0x00)
    ∷ (0x32, 0x00)
    ∷ (0x33, 0x00)
    ∷ (0x30, 0x00)
    ∷ (0x2e, 0x7f)
    ∷ (0x00, 0x00)
    ∷ (0x00, 0x00)
    ∷ (0x00, 0x00)
    ∷ (0x00, 0x00)
    ∷ (0x00, 0x00)
    ∷ (0x00, 0x00)
    ∷ (0x00, 0x00)
    ∷ (0x00, 0x00)
    ∷ (0x00, 0x00)
    ∷ (0x00, 0x00)
    ∷ (0x00, 0x00)
    ∷ (0x00, 0x00)
    ∷ []

unfoldable pub plain : ℕ → ℕ
plain makecode = (get_or keymap makecode (0, 0)).0

unfoldable pub shifted : ℕ → ℕ
shifted makecode = (get_or keymap makecode (0, 0)).1
