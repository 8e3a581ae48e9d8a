-- ===== src/SecDesc/Inheritance.antt =====
-- internal/secdesc/ace.go: the inheritance that the flags of an entry stand for.
pub mod RoundTrip
mod Tests
use go_adldap.Base.{ℕ, Bool, not, bit_and, bit_or, ◌==◌, if◌then◌else◌}

abbrev pub ace_flag_container_inherit : ℕ
ace_flag_container_inherit = 0x02

abbrev pub ace_flag_no_propagate : ℕ
ace_flag_no_propagate = 0x04

abbrev pub ace_flag_inherit_only : ℕ
ace_flag_inherit_only = 0x08

-- The values of adcore.Inheritance that the package names.
pub data Inheritance : Type 0 where
  this_object children descendants : Inheritance

unfoldable pub inheritance_of : ℕ → Inheritance
inheritance_of flags =
    if bit_and flags ace_flag_container_inherit == 0
    then this_object
    else if not (bit_and flags ace_flag_no_propagate == 0)
    then children
    else descendants

unfoldable pub flags_for : Inheritance → ℕ
flags_for descendants = bit_or ace_flag_container_inherit ace_flag_inherit_only
flags_for children =
    bit_or (bit_or ace_flag_container_inherit ace_flag_no_propagate) ace_flag_inherit_only
flags_for this_object = 0
