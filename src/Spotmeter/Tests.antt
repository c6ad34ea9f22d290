-- ===== src/Spotmeter/Tests.antt =====
-- A frame whose pixels are all alike, and rounds of the task.
use magic_lantern.Common.{◌≤◌, ◌<◌, ◌≡◌, refl, none, [], ◌∷◌, arith}
use magic_lantern.Bitmap.{Display}
use magic_lantern.Spotmeter.{VramInfo, msleep, spotmeter_round, spotmeter_measure}
use magic_lantern.Spotmeter.Mean.{spotmeter_measure-between}

abbrev grey : VramInfo
grey = record { vram = λ a. 32768; width = 1024; pitch = 1024; height = 680 }

spotmeter_measure-between_example :
    (50 ≤ spotmeter_measure grey 5)
    × (spotmeter_measure grey 5 ≤ 50)
    × (spotmeter_measure grey 5 < 100)
spotmeter_measure-between_example =
    spotmeter_measure-between grey 5 32768 32768 (omega arith) (omega arith) (omega arith)
      (omega arith) (omega arith) (omega arith) (λ y x h k. (omega arith, omega arith))

-- A square that does not fit the frame: `height/2 - dx` wraps round, and nothing is summed.
measured_nothing : spotmeter_measure (record grey { height = 8 }) 5 ≡ 0
unfolding spotmeter_measure
measured_nothing = refl

abbrev display : Display
display = record { vram = 1000; width = 720; pitch = 960; height = 480 }

switched_off : (spotmeter_round 0 5 none display (λ a. a)).1 ≡ msleep 1000 ∷ []
unfolding spotmeter_round
switched_off = refl
