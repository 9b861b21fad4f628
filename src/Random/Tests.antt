-- ===== src/Random/Tests.antt =====
-- Runs of the generator, and its theorem at concrete states.
use oh_my_os.Base.{◌≡◌, refl}
use oh_my_os.Random.{rand, srand}

first_number : (rand (srand 42)).0 ≡ 11740
unfolding rand srand
first_number = refl
