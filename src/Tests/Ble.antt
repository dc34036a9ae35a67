-- ===== src/Tests/Ble.antt =====
-- The telemetry of the Bluetooth link on small frames; a value is a number that is finite below 1000.
use canshift_firmware.Prelude.{
  ℕ, ◌*◌, ◌%◌, ◌<◌, ◌≡◌, refl, Bool, true, false, none, some, List, [], ◌∷◌, ltb, inl, All,
  replicate, arith,
}
use canshift_firmware.Ble.Telemetry.{max_frame_bytes, keepalive_ticks, Field, encode, Emitter}
use canshift_firmware.Ble.Telemetry.RoundTrip.{decode, decode-encode}
use canshift_firmware.Ble.Telemetry.Dedupe.{
  Tick, IsFrame, IsSilent, Mirrors, run-Mirrors, silent_lt_keepalive,
}

abbrev below_1000 : ℕ → Bool
below_1000 v = ltb v 1000

abbrev milli : ℕ → ℕ
milli v = (v * 1000) % 4294967296

milli_bits : (v : ℕ) → milli v < 4294967296
milli_bits v = omega arith

abbrev three : List (Field ℕ)
three =
    record { present = true; value = 90 }
    ∷ record { present = true; value = 5000 }
    ∷ record { present = false; value = 1 }
    ∷ []

decode-encode_example :
    (bytes : List ℕ) × (encode below_1000 milli three max_frame_bytes ≡ some bytes)
    × (decode 3 bytes ≡ some (some 90000 ∷ none ∷ none ∷ []))
unfolding canshift_firmware.Ble.Telemetry.is_emitted
decode-encode_example = decode-encode below_1000 milli milli_bits three (omega arith)

-- One frame twice, then nobody, then it again.
abbrev ticks : List Tick
ticks =
    record { subs = 1; frame = 1 ∷ 0 ∷ 0 ∷ [] }
    ∷ record { subs = 1; frame = 1 ∷ 0 ∷ 0 ∷ [] }
    ∷ record { subs = 0; frame = 1 ∷ 0 ∷ 0 ∷ [] }
    ∷ record { subs = 1; frame = 1 ∷ 0 ∷ 0 ∷ [] }
    ∷ []

abbrev idle : Emitter
idle = record { dedup = record { last = []; ticks_since_send = 0 }; last_sub_count = 0 }

short : IsFrame (record { subs = 1; frame = 1 ∷ 0 ∷ 0 ∷ [] })
short = (omega arith, omega arith)

run-Mirrors_example : Mirrors ticks idle []
run-Mirrors_example = run-Mirrors ticks idle [] (short, (short, (short, (short, tt)))) (inl refl)

-- Nine equal frames after one that was sent.
abbrev same : List Tick
same = replicate 9 (record { subs = 1; frame = 1 ∷ 0 ∷ 0 ∷ [] })

abbrev sent : Emitter
sent = record { dedup = record { last = 1 ∷ 0 ∷ 0 ∷ []; ticks_since_send = 0 }; last_sub_count = 1 }

short_same : All IsFrame same
short_same = (short, (short, (short, (short, (short, (short, (short, (short, (short, tt)))))))))

heard : All (λ t. 0 < t.subs) same
heard = (
  omega arith,
  (
    omega arith,
    (
      omega arith,
      (omega arith, (omega arith, (omega arith, (omega arith, (omega arith, (omega arith, tt)))))),
    ),
  ),
)

same-IsSilent : IsSilent same sent
unfolding canshift_firmware.Ble.Telemetry.Dedupe.step canshift_firmware.Ble.Telemetry.emit_telemetry
    canshift_firmware.Ble.Telemetry.should_send canshift_firmware.Ble.Telemetry.reset_deduper
same-IsSilent = (refl, (refl, (refl, (refl, (refl, (refl, (refl, (refl, (refl, tt)))))))))

silent_lt_keepalive_example : 9 < keepalive_ticks
silent_lt_keepalive_example = silent_lt_keepalive same sent short_same heard same-IsSilent
