-- ===== src/Tests/Queue.antt =====
-- The queue of scheduler.py on a short run: two VS1 reads and one P300 read, at most one in a row.
use optolink.Base.{◌≡◌, first, ◌⊎◌, refl, none, some, List, [], ◌∷◌, true, false, arith}
use optolink.Base.Result.{ok}
use optolink.Reads.{Protocol, vs1, vs1_p06, vs1_p80, p300_id, running, micros}
use optolink.Queue.{
  Queue, Ticket, Call, call_submit, call_take, call_finish, anything, prefer, create, take, submit,
  finish, step, run, in_mode, with_state,
}
use optolink.Queue.Account.{IsValid}
use optolink.Queue.Invariant.{run-IsValid}
use optolink.Queue.Take.{Served, take-Served, take_answers}
use optolink.Queue.Handed.{waiting}

abbrev fresh_queue : Queue
fresh_queue = record {
  capacity = 3;
  max_same_mode = 1;
  pending = [];
  inflight = none;
  left = [];
  consumer = none;
  last_mode = none;
  same_mode_count = 0;
  next_sequence = 1;
  closed = false;
}

create_runs : create (some 3) (some 1) ≡ ok fresh_queue
unfolding create
create_runs = refl

abbrev calls : List Call
calls =
    call_submit (some vs1_p06) (micros 100) 0 0
    ∷ call_submit (some vs1_p80) (micros 100) 1 1
    ∷ call_submit (some p300_id) (micros 100) 2 2
    ∷ call_submit (some p300_id) (micros 100) 3 3
    ∷ call_take (prefer vs1) 7 4
    ∷ call_finish 1 (some true) 7
    ∷ []

abbrev after_calls : Queue
after_calls = run calls fresh_queue

fresh_queue-IsValid : IsValid fresh_queue
fresh_queue-IsValid = record {
  sound = ground arith;
  accounts = λ n m. record { once = ground arith; counted = refl };
}

run-IsValid_example : IsValid after_calls
run-IsValid_example = run-IsValid calls fresh_queue fresh_queue-IsValid

-- The third request is of the other protocol and is taken, whatever is preferred.
abbrev third : Ticket
third = record { sequence = 3; kind = p300_id; enqueued_at = 2; deadline = 102; state = running }

take_runs :
    take (prefer vs1) 7 5 after_calls ≡ (ok (some third), (take (prefer vs1) 7 5 after_calls).1)
unfolding take run step finish submit
take_runs = refl

take-Served_example : Served 5 after_calls (take (prefer vs1) 7 5 after_calls).1 third
take-Served_example = take-Served (prefer vs1) 7 5 after_calls run-IsValid_example take_runs

take_answers_example :
    ((waiting 5 after_calls ≡ []) × ((take anything 7 5 after_calls).0 ≡ ok none))
    ⊎ ((m : Protocol) × (t : Ticket) × (first (in_mode m) (waiting 5 after_calls) ≡ some t)
        × ((take anything 7 5 after_calls).0 ≡ ok (some (with_state running t))))
unfolding run step finish take submit
take_answers_example = take_answers anything 7 5 after_calls (λ e. cc e) refl refl refl
