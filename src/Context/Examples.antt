-- ===== src/Context/Examples.antt =====
-- The theorems on contexts at concrete inputs.
use ruptura.Base.{◌*◌, [], ◌∷◌, string_eq, minute}
use ruptura.Context.{
  ContextType, ContextEntry, Entries, DeploymentDetector, new_deployment_detector,
}

abbrev test_run : ContextEntry
test_run = record {
  id = "c1";
  kind = ContextType.load_test;
  service = "web";
  note = "";
  created_at = minute;
  expires_at = 10 * minute;
}

abbrev entries : Entries
entries = ("c1", test_run) ∷ []

abbrev rollout : DeploymentDetector
rollout = record new_deployment_detector {
  events = record { id = "d1"; service = "web"; started_at = 5 * minute } ∷ [];
}
