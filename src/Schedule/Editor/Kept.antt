-- ===== src/Schedule/Editor/Kept.antt =====
-- The slots of the editor over any sequence of actions.
use optolink.Base.{List, inr}
use optolink.Maintenance.Device.{Broker}
use optolink.Schedule.Editor.State.{Action, Editor}
use optolink.Schedule.Editor.Actions.{run}
use optolink.Schedule.Editor.Slots.{AreFit}
use optolink.Schedule.Editor.Walk.{run-Fits}

-- The draft of the editor over any actions, whatever the controller and the network do: it keeps four
-- slots, each off or with both times, a start and an end of whole ten minutes of one day, and the end
-- not before the start.
pub run-AreFit :
    {W : Type 0} (broker : Broker W) (actions : List Action) (s : Editor W)
    → AreFit s.slots
    → AreFit (run broker actions s).slots
run-AreFit broker actions s h =
    (run-Fits broker (λ _. Unit {0}) (λ program day t j. j) actions s
      (inr (λ program day payload t j. j)) (h, tt)).0
