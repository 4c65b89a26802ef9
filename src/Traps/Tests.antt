-- ===== src/Traps/Tests.antt =====
-- Causes at a number that the hardware sends.
use lsd_limine.Prelude.{◌≡◌, ◌⊎◌}
use lsd_limine.Traps.Cause.{
  from_cause, discriminant, store_page_fault, reserved, from_cause-discriminant,
}

from_cause_example :
    (from_cause (discriminant store_page_fault) ≡ store_page_fault)
    × ((from_cause 8 ≡ reserved) ⊎ (discriminant (from_cause 8) ≡ 8))
from_cause_example = from_cause-discriminant store_page_fault 8
