-- ===== src/Tests/Settings.antt =====
-- The settings of optolink_maintenance_core.py at answers of a controller.
use optolink.Base.{◌≡◌, refl, some, List, ◌∷◌, true, false}
use optolink.Base.Result.{ok, OnOk}
use optolink.Text.{Text, codes, split, int_auto, strip}
use optolink.Text.Hex.{from_hex, from_le}
use optolink.Maintenance.Commands.{read_command, write_command, payload}
use optolink.Maintenance.Device.{request, await, pick, attempt, first_do, give, raise, lift, ◌>>=◌}
use optolink.Maintenance.Bytes.{read_uint_le, read_raw, raw_response, write_byte, write_verify_byte}
use optolink.Maintenance.Log.{Grows}
use optolink.Maintenance.Surface.{IsRead}
use optolink.Maintenance.Outcomes.{IsEffect, settings-AreEffects}
use optolink.Maintenance.Snapshot.{Snapshot, snapshot, needs_maintenance}
use optolink.Maintenance.Settings.{
  Outcome, changed, unchanged, hours_operation, months_operation, change,
}
use optolink.Tests.Maintenance.{scripted, start, one, status_answers}

-- 1000 h are set: the byte was 0, is written as 10 and read back
abbrev hours_answers : List (List Text)
hours_answers =
    one (codes "1;0x5721;00")
    ∷ one (codes "1;0x7570;02000000")
    ∷ one (codes "1;0x5721;10")
    ∷ one (codes "1;0x5721;0a")
    ∷ one (codes "1;0x7570;10000000")
    ∷ status_answers

abbrev status_now : Snapshot
status_now = record {
  threshold = (0, codes "00");
  hours = 0;
  months = (12, codes "0c");
  state = (1, codes "01");
  text = needs_maintenance;
  interval = (1, codes "01000000");
  baseline = (2, codes "02000000");
  total = (16, codes "10000000");
  since_reference = some 14;
  starts = (5, codes "05000000");
}

abbrev hours_changed : Outcome
hours_changed = changed (record {
  previous = 0;
  requested = 1000;
  before = (2, codes "02000000");
  after = (16, codes "10000000");
  reference_changed = true;
  status = status_now;
})

hours_runs : (hours_operation scripted 1000 true false (start hours_answers)).0 ≡ ok hours_changed
unfolding hours_operation change write_verify_byte snapshot write_byte read_uint_le read_raw request
    await pick raw_response payload ◌>>=◌ give raise lift attempt first_do read_command
    write_command from_hex from_le split int_auto strip
hours_runs = refl

-- 12 months are set already
abbrev months_unchanged : Outcome
months_unchanged = unchanged 12 (codes "0c") status_now

months_runs :
    (months_operation scripted 12 false false
      (start (one (codes "1;0x5723;0c") ∷ status_answers))).0
    ≡ ok months_unchanged
unfolding months_operation snapshot read_uint_le read_raw request await pick raw_response payload
    ◌>>=◌ give lift read_command from_hex from_le split int_auto strip
months_runs = refl

settings-AreEffects_example :
    let s = start hours_answers in
    let h = hours_operation scripted 1000 true false s in
    let m = months_operation scripted 1000 true false s in
    OnOk (IsEffect scripted 0x5721 0x7570 10 1000 true false s h.1) h.0
    × OnOk (IsEffect scripted 0x5723 0x756C 1000 1000 true false s m.1) m.0
    × (true ≡ false → Grows IsRead s.sent h.1.sent × Grows IsRead s.sent m.1.sent)
settings-AreEffects_example = settings-AreEffects scripted 1000 true false (start hours_answers)
