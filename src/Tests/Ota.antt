-- ===== src/Tests/Ota.antt =====
-- An update of 36 bytes in two chunks, on a platform whose calls succeed.
use canshift_firmware.Prelude.{
  ℕ, ◌≡◌, refl, true, false, none, some, List, [], ◌∷◌, ◌++◌, replicate, arith,
}
use canshift_firmware.Ota.Flash.{Partition, ended, boot_set, image}
use canshift_firmware.Ota.Receiver.{
  Receiver, State, BeginAnswers, app_header_probe_bytes, begin, commit,
}
use canshift_firmware.Ota.Receiver.Inv.{Begun}
use canshift_firmware.Ota.Receiver.Begin.{begin-Healthy}
use canshift_firmware.Ota.Receiver.Feed.{Chunk}
use canshift_firmware.Ota.Receiver.Commit.{IsVerified, update, commit-IsVerified}
use canshift_firmware.Ota.Receiver.Complete.{update_completes}
use canshift_firmware.Ota.Receiver.Handles.{Op, begins, writes, aborts, Balanced, run, run-Balanced}
use canshift_firmware.Ota.Host.{Host, handle_ota_write}
use canshift_firmware.Ota.Host.Watch.{Answers, handle_ota_write-Answers}
use canshift_firmware.Tests.Platform.{trust}

abbrev header : List ℕ
header = 0xe9 ∷ replicate 31 0

abbrev descriptor : List ℕ
descriptor = 0x32 ∷ 0x54 ∷ 0xcd ∷ 0xab ∷ []

abbrev partition : Partition
partition = record { label = 1; size = 100 }

abbrev announced : Begun
announced = record {
  total = 36;
  expected_sha = header ++ descriptor;
  signature = some (header ++ descriptor);
  target = partition;
  handle = 7;
}

abbrev chunks : List Chunk
chunks =
    record { offset = 0; bytes = header; write_ok = true }
    ∷ record { offset = 32; bytes = descriptor; write_ok = true }
    ∷ []

abbrev booted : Receiver trust
booted = record {
  state = State.idle;
  target = none;
  handle = 0;
  expected_size = 0;
  written_size = 0;
  sha = [];
  expected_sha = replicate 32 0;
  header_probe = replicate 36 0;
  header_probe_len = 0;
  signature = none;
  signed = false;
  log = [];
}

commit-IsVerified_example :
    let (r', bytes) = update false announced chunks booted in
    IsVerified trust false announced bytes
    × (image 7 r'.log ≡ bytes)
    × ((commit false (record { end_code = 0; set_boot_code = 0 }) r').0.log
        ≡ boot_set (some partition) ∷ ended 7 ∷ r'.log)
unfolding begin commit canshift_firmware.Ota.Receiver.Feed.feed
    canshift_firmware.Ota.Receiver.write_chunk canshift_firmware.Ota.Receiver.bytes_eq
commit-IsVerified_example =
    commit-IsVerified false announced chunks (record { end_code = 0; set_boot_code = 0 }) booted
      (omega arith) refl refl (omega arith, (omega arith, tt)) refl

update_completes_example :
    ((update false announced chunks booted).1 ≡ header ++ descriptor)
    × ((commit false
          (record { end_code = 0; set_boot_code = 0 })
          (update false announced chunks booted).0).1.error
        ≡ none)
unfolding begin
update_completes_example =
    update_completes false announced chunks booted (λ sha bytes. (sha ++ bytes, refl))
      (λ sha. (sha, refl)) (omega arith) refl refl (omega arith, (omega arith, tt))
      ((refl, λ e. absurd (omega arith), refl), ((refl, λ e. absurd (omega arith), refl), tt))
      (record {
        size = refl;
        sha = refl;
        app = record { image_magic = refl; desc_magic = refl };
        signed = refl;
      })

abbrev commands : List Op
commands =
    begins 36 (header ++ descriptor) none (record { partition = some partition; handle = some 7 })
    ∷ writes 0 header true
    ∷ begins 36 (header ++ descriptor) none (record { partition = some partition; handle = some 8 })
    ∷ aborts
    ∷ []

run-Balanced_example : Balanced (run true commands booted)
unfolding canshift_firmware.Ota.Flash.closes canshift_firmware.Ota.Flash.opens
run-Balanced_example =
    run-Balanced true commands booted
      (λ e. absurd (ground arith), (tt, (λ e. absurd (ground arith), (tt, tt))))
      (record { held = refl; count = refl })

abbrev receiving_host : Host trust
receiving_host = record {
  receiver =
      (begin false 36 (header ++ descriptor) (some (header ++ descriptor))
        (record { partition = some partition; handle = some 7 }) booted).0;
  session_from_socket = true;
  session_activity_ms = 1000;
}

handle_ota_write-Answers_example :
    Answers announced [] header receiving_host
      (handle_ota_write (some (0, header)) true 1500 receiving_host)
unfolding begin image
handle_ota_write-Answers_example =
    handle_ota_write-Answers announced 0 header true 1500 receiving_host (λ e. absurd (omega arith))
      (omega arith) (begin-Healthy false announced booted (omega arith) refl refl).0
