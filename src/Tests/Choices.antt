-- ===== src/Tests/Choices.antt =====
-- Runs of the calibration of src/app/main.cpp and of the JSON loop.
use neuralware_x.Prelude.{
  ℕ, ◌*◌, ◌/◌, ◌^◌, ◌≤◌, ◌≡◌, refl, true, false, Option, none, some, List, [], arith,
}
use neuralware_x.Prelude.Text.{codes}
use neuralware_x.Double.{Double, IsOrdered}
use neuralware_x.Calibration.{Best, nll_for, last_temperature, calibrate}
use neuralware_x.Calibration.Chosen.{grid, calibrate_lem}
use neuralware_x.Json.{parse_rounds}
use neuralware_x.Json.Rounds.{parse_rounds_enough}
use neuralware_x.Tests.Samples.{halves, points, labels}

-- A double is a number of thousandths.
abbrev thousandths : Double ℕ
thousandths = record halves { decimal = λ m e. (1000 * m) / 10 ^ e }

thousandths-IsOrdered : IsOrdered thousandths
thousandths-IsOrdered = record {
  lt_irrefl = λ x. ground arith;
  lt_trans = λ x y z h h'. ground arith;
  lt_weak = λ x y z e h h'. ground arith;
}

calibrate_lem_example :
    let nll = nll_for ⦃d = thousandths⦄ points labels in
    (b : Best ℕ) × (calibrate ⦃d = thousandths⦄ points labels ≡ some b)
    × (b.nll ≡ nll b.temperature)
    × (thousandths.lt (nll 1000) b.nll ≡ false)
    × ((n : ℕ)
        → ((k : ℕ)
            → k ≤ n
            → thousandths.le (grid ⦃d = thousandths⦄ k 500) (last_temperature ⦃d = thousandths⦄)
              ≡ true)
        → thousandths.lt (nll (grid ⦃d = thousandths⦄ n 500)) b.nll ≡ false)
calibrate_lem_example =
    calibrate_lem ⦃d = thousandths⦄ thousandths-IsOrdered points labels (91, omega arith, refl)

abbrev no_number : List ℕ → Option ℕ
no_number w = none

parse_rounds_enough_example :
    parse_rounds no_number 24 [] (codes "\"a\" : \"b\", \"c\": true}")
    ≡ parse_rounds no_number 21 [] (codes "\"a\" : \"b\", \"c\": true}")
parse_rounds_enough_example =
    parse_rounds_enough no_number 21 3 [] (codes "\"a\" : \"b\", \"c\": true}") (omega arith)
