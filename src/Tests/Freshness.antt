-- ===== src/Tests/Freshness.antt =====
-- The provenance of scheduler.py: two attested samples, and a transfer with its verified return.
use optolink.Base.{ℕ, ◌≡◌, refl, some, List, [], ◌∷◌, true, false, ◌≤◌}
use optolink.Base.Result.{ok}
use optolink.Reads.{vs1_p06, micros}
use optolink.Text.{codes, pos}
use optolink.Freshness.Provenance.{
  Provenance, Call, call_observe, create, line, poll_item, answer, text, number, require_age,
  observe_original, step, run, gfa_kind,
}
use optolink.Freshness.Provenance.Samples.{IsAttested, create-IsAttested}
use optolink.Freshness.Provenance.Transfer.{run-IsAttested}
use optolink.Freshness.Provenance.Age.{Proof, require_age-Proof}

abbrev observations : List Call
observations =
    call_observe 1 (line (codes "gfaread;0x4050;1;raw;False")) (answer (pos 1) (0x20 ∷ [])) 10
    ∷ call_observe 1 (line (codes "GR;0x4006;1")) (answer (pos 1) (0 ∷ [])) 20
    ∷ []

abbrev observed : Provenance
observed = run observations (create 1)

item_is_p06 :
    gfa_kind (
      poll_item
        (some (codes "p06"))
        (text (codes "0x4006"))
        (number (pos 1))
        (some (codes "GFA:rpm"))
        true)
    ≡ some vs1_p06
unfolding gfa_kind
item_is_p06 = refl

run-IsAttested_example : IsAttested observed
run-IsAttested_example = run-IsAttested observations (create 1) (create-IsAttested 1)

age_given : require_age 1 (micros 100) 50 51 52 observed ≡ ok 32
unfolding require_age run create step observe_original
age_given = refl

require_age-Proof_example :
    (m : ℕ) × (micros 100 ≡ micros m)
    × (1 ≤ m)
    × (1 ≡ observed.owner)
    × (observed.in_transfer ≡ false)
    × Proof observed m 50 51 52 32
require_age-Proof_example = require_age-Proof 1 (micros 100) 50 51 52 observed age_given

abbrev in_transfer : Provenance
in_transfer = record observed { in_transfer = true }
