-- ===== src/Capabilities/Tests.antt =====
-- The theorems on src/capabilities.rs at inputs.
use boxed.Prelude.{◌≡◌, refl, not, ◌&&◌, ◌||◌, List, [], ◌∷◌, ◌++◌}
use boxed.Types.{Capability, CapSet, cap_chown, cap_net_raw, cap_setuid}
use boxed.Kernel.{Call, World}
use boxed.Kernel.Sample.{granting, fresh}
use boxed.Capabilities.{cap_eq, cap_code, contains_cap, retained_caps, drop_each, drop_capabilities}
use boxed.Capabilities.Sets.{
  Sets, effects, sets_behind, drop_capabilities-effects, drop_capabilities-retained,
}

-- CAP_CHOWN is kept, and 21 stands for CAP_SYS_ADMIN.
abbrev all_caps : List Capability
all_caps = cap_chown ∷ Capability.other 21 ∷ cap_setuid ∷ []

drop_capabilities-effects_example :
    (made : List Call) × ((drop_capabilities all_caps granting fresh).1.calls ≡ [] ++ made)
    × ((sets : Sets) (t : CapSet) (c : Capability)
        → sets_behind granting [] sets made t c
          ≡ (sets t c && (contains_cap retained_caps c || not (contains_cap all_caps c))))
unfolding drop_capabilities drop_each contains_cap cap_eq cap_code boxed.Kernel.call
drop_capabilities-effects_example = drop_capabilities-effects granting fresh all_caps refl

drop_capabilities-retained_example :
    (made : List Call) × ((drop_capabilities all_caps granting fresh).1.calls ≡ [] ++ made)
    × ((sets : Sets)
        → effects sets made CapSet.bounding cap_net_raw ≡ sets CapSet.bounding cap_net_raw)
unfolding contains_cap cap_eq cap_code
drop_capabilities-retained_example =
    drop_capabilities-retained CapSet.bounding cap_net_raw refl granting fresh all_caps
