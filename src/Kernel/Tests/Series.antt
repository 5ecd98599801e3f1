-- ===== src/Kernel/Tests/Series.antt =====
-- Two calls of `advance_once`, the second on what the first has returned.
use cumcm.Base.{◌≡◌, refl, true, false, ◌+◌, leb}
use cumcm.Py.Value.{str, dict, eq}
use cumcm.Py.Dict.{get, set}
use cumcm.Kernel.Advance.Pipeline.{Call, Calls, place, Calls-place}
use cumcm.Kernel.Tests.{start, intake, host, host_at, validators, loaded, advanced}
use cumcm.Kernel.Tests.Modes.{covered, next_loaded, next_advanced}

start_same : eq (dict start) (dict start) ≡ true
unfolding eq
start_same = refl

intake_same : eq (dict intake) (dict intake) ≡ true
unfolding eq set
intake_same = refl

intake-Call : Call start intake
intake-Call = record {
  host = host;
  validators = validators;
  check = false;
  loaded = start;
  load = loaded;
  same = start_same;
  returned = advanced;
}

covered-Call : Call intake covered
covered-Call = record {
  host = host_at intake;
  validators = validators;
  check = false;
  loaded = intake;
  load = next_loaded;
  same = intake_same;
  returned = next_advanced;
}

covered_state : get "state" covered ≡ str "REQUIREMENTS_VALIDATED"
unfolding set
covered_state = refl

Calls-place_example :
    (place "REQUIREMENTS_VALIDATED" ≡ 2 + place "CREATED") × (leb (2 + place "CREATED") 13 ≡ true)
Calls-place_example =
    Calls-place 2 start covered "CREATED" "REQUIREMENTS_VALIDATED"
      (Calls.more 1 start intake covered intake-Call
        (Calls.more 0 intake covered covered covered-Call (Calls.done covered)))
      refl covered_state refl
