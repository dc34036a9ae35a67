-- ===== src/Ota/Flash.antt =====
-- The calls of the ESP-IDF update API that the receiver makes, in a log with the newest call first,
-- and what the log says of an image.
use canshift_firmware.Prelude.{ℕ, suc, Option, List, [], ◌∷◌, ◌++◌, ◌==◌, if◌then◌else◌}

pub record Partition : Type 0 where
  pub label : ℕ
  pub size : ℕ

pub data Call : Type 0 where
  -- `esp_ota_begin` that returned ESP_OK, with the handle that it gave.
  opened : Partition → ℕ → Call
  -- `esp_ota_write` that returned ESP_OK.
  wrote : ℕ → List ℕ → Call
  aborted : ℕ → Call
  -- `esp_ota_end`, whatever it returned: the handle is gone.
  ended : ℕ → Call
  -- `esp_ota_set_boot_partition` that returned ESP_OK.
  boot_set : Option Partition → Call

-- The bytes written through a handle since it was last given out.
unfoldable pub image : ℕ → List Call → List ℕ
image h [] = []
image h (opened p k ∷ log) = let rest = image h log in if k == h then [] else rest
image h (wrote k bytes ∷ log) = if k == h then image h log ++ bytes else image h log
image h (aborted k ∷ log) = image h log
image h (ended k ∷ log) = image h log
image h (boot_set p ∷ log) = image h log

-- Handles given out, and handles given back.
unfoldable pub opens : List Call → ℕ
opens [] = 0
opens (opened p k ∷ log) = suc (opens log)
opens (wrote k bytes ∷ log) = opens log
opens (aborted k ∷ log) = opens log
opens (ended k ∷ log) = opens log
opens (boot_set p ∷ log) = opens log

unfoldable pub closes : List Call → ℕ
closes [] = 0
closes (opened p k ∷ log) = closes log
closes (wrote k bytes ∷ log) = closes log
closes (aborted k ∷ log) = suc (closes log)
closes (ended k ∷ log) = suc (closes log)
closes (boot_set p ∷ log) = closes log
