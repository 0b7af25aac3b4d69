-- ===== src/Config/Tests.antt =====
-- The theorems about the configuration at concrete configurations.
use serverless_operator.Common.{List, [], ◌∷◌}
use serverless_operator.Config.{ConfigMapData}
use serverless_operator.Config.Memory.{ResourceRequirementsOverride}

abbrev config : ConfigMapData
config = ("network", ("ingress-class", "kourier") ∷ []) ∷ ("domain", []) ∷ []

abbrev overrides : List ResourceRequirementsOverride
overrides = record { container = "activator"; limits = ("cpu", "1") ∷ []; requests = [] } ∷ []
