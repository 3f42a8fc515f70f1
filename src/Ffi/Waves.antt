-- ===== src/Ffi/Waves.antt =====
-- Which waves a program owns: those that it created and has not deleted, by their ids.
use vender.Prelude.{ℕ, ℤ, pos, negsuc, ◌+◌, [], ◌∷◌, ◌==◌, if◌then◌else◌}
use vender.Ffi.{Call, wave_create, wave_delete, History, Hardware}

-- 1 for the id that is meant, 0 for any other.
abbrev pub one_if : (wave id : ℕ) → ℕ
one_if wave id = if wave == id then 1 else 0

abbrev pub one_if_code : ℕ → ℤ → ℕ
one_if_code wave (pos id) = one_if wave id
one_if_code wave (negsuc n) = 0

module _ (H : Hardware) (wave : ℕ) where
  -- How many times a creation has given this id.
  abbrev pub created_by : Call → History → ℕ
  created_by wave_create h = one_if_code wave (H.code (wave_create ∷ h))
  created_by _ h = 0

  unfoldable pub created : History → ℕ
  created [] = 0
  created (c ∷ h) = created_by c h + created h

-- How many times this id has been deleted.
abbrev pub deleted_by : ℕ → Call → ℕ
deleted_by wave (wave_delete id) = one_if wave id
deleted_by wave wave_create = 0
deleted_by wave _ = 0

unfoldable pub deleted : ℕ → History → ℕ
deleted wave [] = 0
deleted wave (c ∷ h) = deleted_by wave c + deleted wave h
