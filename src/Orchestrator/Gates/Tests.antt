-- ===== src/Orchestrator/Gates/Tests.antt =====
-- A gate that is asked twice, and the theorems at this input.
use jetty.Prelude.{ℕ, true, false, some, [], ◌∷◌, ◌≡◌, refl, arith}
use jetty.Prelude.Dict.{get, put}
use jetty.Prelude.Text.{str_eq, codes}
use jetty.Orchestrator.Config.Model.{GateConfig, exited, exit_code_eq}
use jetty.Orchestrator.Gates.{GateSet, Ask, Answer, done, run_check, usable, check}
use jetty.Orchestrator.Gates.Evidence.{
  Evidence, IsBacked, check-Evidence, check-IsBacked, check-cached,
}

abbrev vpn : GateConfig
vpn = record {
  check = codes "ping" ∷ [];
  recheck_seconds = 30;
  timeout_seconds = 10;
  continuous = false;
  close_after = 1;
}

abbrev gates : GateSet
gates = record { gates = (codes "vpn", vpn) ∷ []; cache = [] }

abbrev ask_at : ℕ → Ask
ask_at now = record {
  gate = codes "vpn";
  refresh = false;
  asked_at = now;
  ends = done (exited 0);
  ran_at = now;
}

abbrev open_at : ℕ → Answer
open_at now = record {
  set = record gates { cache = (codes "vpn", (now, true)) ∷ [] };
  ok = true;
  ran = true;
}

gates-IsBacked : IsBacked [] gates
unfolding get
gates-IsBacked gate stamp h = cc

check_first : check gates (ask_at 100) ≡ some (open_at 100)
unfolding check usable run_check exit_code_eq str_eq get put
check_first = refl

get-vpn : get gates.gates (codes "vpn") ≡ some vpn
unfolding get str_eq
get-vpn = refl

check-Evidence_example : Evidence (ask_at 100 ∷ []) gates (ask_at 100) (open_at 100)
check-Evidence_example = check-Evidence gates (ask_at 100) [] gates-IsBacked check_first refl

check-IsBacked_example : IsBacked (ask_at 100 ∷ []) (open_at 100).set
check-IsBacked_example = check-IsBacked gates (ask_at 100) [] gates-IsBacked check_first

check-cached_example :
    check (open_at 100).set (ask_at 129)
    ≡ some (record { set = (open_at 100).set; ok = true; ran = false })
check-cached_example =
    check-cached gates (ask_at 100) (ask_at 129) check_first refl get-vpn refl refl (omega arith)
