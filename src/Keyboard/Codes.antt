-- ===== src/Keyboard/Codes.antt =====
-- The codes of the keyboard, src/HAL9000/headers/scan_codes.h, and the tables of
-- src/HAL9000/src/keyboard.c that lead from what the keyboard sends to them.
use good_osd_project.Prelude.{ℕ, List, [], ◌∷◌}

abbrev pub key_lctrl : ℕ
key_lctrl = 16387

abbrev pub key_rctrl : ℕ
key_rctrl = 16391

abbrev pub key_lshift : ℕ
key_lshift = 16386

abbrev pub key_rshift : ℕ
key_rshift = 16390

abbrev pub key_lalt : ℕ
key_lalt = 16388

abbrev pub key_ralt : ℕ
key_ralt = 16392

abbrev pub key_capslock : ℕ
key_capslock = 16385

abbrev pub key_kp_numlock : ℕ
key_kp_numlock = 12303

abbrev pub key_scrolllock : ℕ
key_scrolllock = 16400

abbrev pub key_unknown : ℕ
key_unknown = 16402

-- `_kkybrd_scancode_std`
abbrev pub scancode_std : List ℕ
scancode_std =
    16402 ∷ 4097 ∷ 49 ∷ 50 ∷ 51 ∷ 52 ∷ 53 ∷ 54 ∷ 55 ∷ 56 ∷ 57 ∷ 48 ∷ 45 ∷ 61 ∷ 8 ∷ 16384 ∷ 113 ∷ 119
    ∷ 101 ∷ 114 ∷ 116 ∷ 121 ∷ 117 ∷ 105 ∷ 111 ∷ 112 ∷ 91 ∷ 93 ∷ 13 ∷ 16387 ∷ 97 ∷ 115 ∷ 100 ∷ 102
    ∷ 103 ∷ 104 ∷ 106 ∷ 107 ∷ 108 ∷ 59 ∷ 39 ∷ 96 ∷ 16386 ∷ 92 ∷ 122 ∷ 120 ∷ 99 ∷ 118 ∷ 98 ∷ 110
    ∷ 109 ∷ 44 ∷ 46 ∷ 47 ∷ 16390 ∷ 42 ∷ 16392 ∷ 32 ∷ 16385 ∷ 4609 ∷ 4610 ∷ 4611 ∷ 4612 ∷ 4613 ∷ 4614
    ∷ 4615 ∷ 4616 ∷ 4617 ∷ 4618 ∷ 12303 ∷ 16400 ∷ 55 ∷ 56 ∷ 57 ∷ 45 ∷ 52 ∷ 53 ∷ 54 ∷ 43 ∷ 49 ∷ 50
    ∷ 51 ∷ 48 ∷ 46 ∷ 16402 ∷ 16402 ∷ 16402 ∷ 4619 ∷ 4619 ∷ []

-- `_kkybrd_scancode_ext`
abbrev pub scancode_ext : List ℕ
scancode_ext =
    16402 ∷ 16402 ∷ 16402 ∷ 16402 ∷ 16402 ∷ 16402 ∷ 16402 ∷ 16402 ∷ 16402 ∷ 16402 ∷ 16402 ∷ 16402
    ∷ 16402 ∷ 16402 ∷ 16402 ∷ 16402 ∷ 16402 ∷ 16402 ∷ 16402 ∷ 16402 ∷ 16402 ∷ 16402 ∷ 16402 ∷ 16402
    ∷ 16402 ∷ 16402 ∷ 16402 ∷ 16402 ∷ 12304 ∷ 16402 ∷ 16402 ∷ 16402 ∷ 16402 ∷ 16402 ∷ 16402 ∷ 16402
    ∷ 16402 ∷ 16402 ∷ 16402 ∷ 16402 ∷ 16402 ∷ 16402 ∷ 16402 ∷ 16402 ∷ 16402 ∷ 16402 ∷ 16402 ∷ 16402
    ∷ 16402 ∷ 16402 ∷ 16402 ∷ 16402 ∷ 16402 ∷ 16402 ∷ 16402 ∷ 16402 ∷ 16402 ∷ 16402 ∷ 16402 ∷ 16402
    ∷ 16402 ∷ 16402 ∷ 16402 ∷ 16402 ∷ 16402 ∷ 16402 ∷ 16402 ∷ 16402 ∷ 16402 ∷ 16402 ∷ 16402 ∷ 16396
    ∷ 4352 ∷ 16402 ∷ 16402 ∷ 4354 ∷ 16402 ∷ 4355 ∷ 16402 ∷ 16397 ∷ 4353 ∷ 16402 ∷ 16402 ∷ 16395
    ∷ 16402 ∷ 16402 ∷ 16402 ∷ 16402 ∷ 16402 ∷ []
