-- ===== src/Maintenance/Snapshot.antt =====
-- `snapshot`: the seven readings of the maintenance status, and what it derives from them.
use optolink.Base.{◌==◌, ℕ, ◌-◌, ◌*◌, ◌&&◌, Option, none, some, ltb, leb, if◌then◌else◌}
use optolink.Text.{Text}
use optolink.Maintenance.Commands.{Failure}
use optolink.Maintenance.Device.{Broker, Op, give, ◌>>=◌}
use optolink.Maintenance.Bytes.{read_uint_le}

-- the addresses `ADDR_…`
abbrev pub hours_threshold : ℕ
hours_threshold = 0x5721

abbrev pub interval_months : ℕ
interval_months = 0x5723

abbrev pub maintenance_state : ℕ
maintenance_state = 0x5724

abbrev pub interval_reference : ℕ
interval_reference = 0x756C

abbrev pub burner_reference : ℕ
burner_reference = 0x7570

abbrev pub burner_total : ℕ
burner_total = 0x08A7

abbrev pub burner_starts : ℕ
burner_starts = 0x088A

pub data StateText : Type 0 where
  base_state : StateText
  needs_maintenance : StateText
  unknown_state : ℕ → StateText

abbrev pub state_text : ℕ → StateText
state_text n = if n == 0 then base_state else if n == 1 then needs_maintenance else unknown_state n

-- The dictionary of `snapshot`, without its constant texts. Each reading is its number and its raw
-- text. `since_reference` is in seconds where the source divides by 3600 to give hours.
pub record Snapshot : Type 0 where
  pub threshold : ℕ × Text
  pub hours : ℕ
  pub months : ℕ × Text
  pub state : ℕ × Text
  pub text : StateText
  pub interval : ℕ × Text
  pub baseline : ℕ × Text
  pub total : ℕ × Text
  pub since_reference : Option ℕ
  pub starts : ℕ × Text

abbrev pub since : ℕ → ℕ → Option ℕ
since reference total =
    if ltb 0 reference && leb reference total then some (total - reference) else none

module _ {W : Type 0} (broker : Broker W) where
  unfoldable pub snapshot : Op Failure W Snapshot
  unfolding read_uint_le
  snapshot = read_uint_le broker hours_threshold 1 >>= λ threshold.
      read_uint_le broker interval_months 1 >>= λ months.
      read_uint_le broker maintenance_state 1 >>= λ state.
      read_uint_le broker interval_reference 4 >>= λ interval.
      read_uint_le broker burner_reference 4 >>= λ baseline.
      read_uint_le broker burner_total 4 >>= λ total.
      read_uint_le broker burner_starts 4 >>= λ starts. give (record {
        threshold = threshold;
        hours = threshold.0 * 100;
        months = months;
        state = state;
        text = state_text state.0;
        interval = interval;
        baseline = baseline;
        total = total;
        since_reference = since baseline.0 total.0;
        starts = starts;
      })
