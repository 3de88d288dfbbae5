-- ===== src/Tests/Throttlers.antt =====
-- A throttler of 100 milliseconds.
use shim_service.Base.{◌≡◌, refl, true, false, some, List, [], ◌∷◌, arith}
use shim_service.Utils.Throttler.{
  Throttler, Phase, Act, new_throttler, add_invocation, look, step, run, call_times,
}
use shim_service.Utils.Throttler.Spacing.{Apart, call_times-Apart}
use shim_service.Utils.Throttler.Waits.{close_forgets, sleep_is_enough}

abbrev acts : List Act
acts =
    Act.adds
    ∷ Act.wakes true
    ∷ Act.looks 5
    ∷ Act.tests
    ∷ Act.adds
    ∷ Act.wakes false
    ∷ Act.looks 60
    ∷ Act.tests
    ∷ Act.wakes false
    ∷ Act.looks 110
    ∷ Act.calls
    ∷ []

called_once : call_times 100 acts new_throttler ≡ 110 ∷ []
unfolding call_times step add_invocation look
called_once = refl

call_times-Apart_example : Apart 100 0 (call_times 100 acts new_throttler)
call_times-Apart_example =
    call_times-Apart 100 acts 0 (omega arith, (omega arith, (omega arith, tt))) tt

abbrev busy : Throttler
busy = record new_throttler {
  any_waiting = true;
  started = true;
  phase = Phase.woken;
  start_time = some 5;
}

close_forgets_example :
    (u : Throttler) × (run 100
        (Act.adds ∷ Act.closes ∷ Act.calls ∷ Act.tests ∷ [])
        (record busy { phase = Phase.calling })
      ≡ some u)
    × (u.any_waiting ≡ true)
    × ((rest : List Act) → call_times 100 rest u ≡ [])
close_forgets_example = close_forgets 100 (record busy { phase = Phase.calling }) refl refl

sleep_is_enough_example :
    (u : Throttler) × (run 100
        (Act.looks 60 ∷ Act.tests ∷ Act.wakes false ∷ Act.looks 106 ∷ [])
        busy
      ≡ some u)
    × (u.phase ≡ Phase.calling)
unfolding look
sleep_is_enough_example =
    sleep_is_enough 100 60 106 false busy refl refl refl refl refl (omega arith)
