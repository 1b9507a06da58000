-- ===== src/Sentience/Impact.antt =====
-- src/hal9000/sentience/capabilities/task_impact.py and
-- src/hal9000/sentience/degradation/severity.py.
use bollywood_hal.Prelude.{
  ℕ, ◌≡◌, ◌↔◌, ◌⊎◌, String, Bool, true, false, ◌&&◌, ◌||◌, ◌=s◌, =s_iff, leb, arith, if◌then◌else◌,
}
use bollywood_hal.Storage.Models.{DegradationSeverity}
use bollywood_hal.Sentience.Tables.{
  ImpactLevel, none_impact, cosmetic, peripheral, cognitive, critical,
}

-- `nominal_requirement` and `material_class` are texts, as the table holds them.
unfoldable pub classify_task_impact : String → String → Bool → Bool → ImpactLevel
classify_task_impact nominal_requirement material_class task_requires unsafe_if_lost =
    if task_requires && unsafe_if_lost
    then critical
    else if task_requires
    then cognitive
    else if nominal_requirement =s "required"
        && (material_class =s "cognitive" || material_class =s "operational")
    then cognitive
    else if material_class =s "cosmetic"
    then cosmetic
    else if nominal_requirement =s "optional"
    then peripheral
    else none_impact

-- membership in {COGNITIVE, CRITICAL}
abbrev pub is_material : ImpactLevel → Bool
is_material cognitive = true
is_material critical = true
is_material _ = false

unfoldable pub from_impact : ImpactLevel → DegradationSeverity
from_impact none_impact = DegradationSeverity.peripheral
from_impact cosmetic = DegradationSeverity.cosmetic
from_impact peripheral = DegradationSeverity.peripheral
from_impact cognitive = DegradationSeverity.cognitive
from_impact critical = DegradationSeverity.critical

-- `_ORDER`
abbrev pub order : DegradationSeverity → ℕ
order DegradationSeverity.cosmetic = 0
order DegradationSeverity.peripheral = 1
order DegradationSeverity.cognitive = 2
order DegradationSeverity.critical = 3

unfoldable pub maximum : DegradationSeverity → DegradationSeverity → DegradationSeverity
maximum first second = if leb (order second) (order first) then first else second

-- An impact is material exactly if the task requires the capability, or the nominal profile requires
-- one of a cognitive or operational class; it is critical exactly if the task requires the capability
-- and its loss is unsafe.
pub classify_task_impact_iff :
    (nominal material : String) (requires unsafe : Bool)
    → ((is_material (classify_task_impact nominal material requires unsafe) ≡ true) ↔ (
        (requires ≡ true)
        ⊎ ((nominal ≡ "required") × ((material ≡ "cognitive") ⊎ (material ≡ "operational")))))
      × ((classify_task_impact nominal material requires unsafe ≡ critical)
          ↔ ((requires ≡ true) × (unsafe ≡ true)))
unfolding classify_task_impact
classify_task_impact_iff nominal material requires unsafe =
    ground
      (arith, =s_iff nominal "required", =s_iff material "cognitive", =s_iff material "operational")
