-- ===== src/Registry/SplitExamples.antt =====
-- Runs of `Deployer.split`, and the witnesses of its theorems.
use agentic_ai_model_adaptat.Prelude.{ℕ, ◌+◌, ◌≡◌, refl, true, none, some, [], arith}
use agentic_ai_model_adaptat.Registry.Port.{
  Exn, deployment_error, is_adaptation, gives, throws, DeploymentTarget,
}
use agentic_ai_model_adaptat.Registry.Deployer.{Deployer}
use agentic_ai_model_adaptat.Registry.Split.{
  TrafficSplit, Splitter, Wanted, wanted, read_back_until, read_back_split, split,
}
use agentic_ai_model_adaptat.Registry.ReadBack.{
  WasRead, SplitClock, EndsBy, split-WasRead, read_back_split-EndsBy,
}
use agentic_ai_model_adaptat.Registry.Desk.{Desk, desk_systems, desk_laws, no_raise}

abbrev deployer : Deployer
deployer = record { timeout_s = 10; poll_s = 5 }

abbrev reported : TrafficSplit
reported = record { stable = some 1; candidate = some 2; percent = 25 }

-- The system always reports a quarter for version 2.
abbrev quarter : Splitter Desk
quarter = record {
  splits_traffic = true;
  set_traffic = λ m s c p w. (gives tt, w);
  traffic = λ m w. (gives reported, w);
}

abbrev version : ℕ → DeploymentTarget
version v = record { model = 40; version = v; source = none; artifact_dir = none }

abbrev desk : Desk
desk = record { live = some 1; db_faults = []; now = 0 }

abbrev quarter_wanted : Wanted
quarter_wanted = wanted (version 1) (some (version 2)) 25

-- The split that is reported is read back; another one is not within the timeout.
splits :
    ((split desk_systems quarter deployer 40 (version 1) (some (version 2)) 25 desk).0
      ≡ gives reported)
    × ((split desk_systems quarter deployer 40 (version 1) (some (version 2)) 50 desk).0
        ≡ throws deployment_error)
unfolding split read_back_split read_back_until
splits = (refl, refl)

split-WasRead_example :
    ((quarter.set_traffic 40 (version 1) (some (version 2)) 25 desk).0 ≡ gives tt)
    × WasRead desk_systems quarter deployer 40 quarter_wanted reported
        (split desk_systems quarter deployer 40 (version 1) (some (version 2)) 25 desk).1
unfolding split read_back_split read_back_until
split-WasRead_example =
    split-WasRead desk_systems quarter deployer 40 (version 1) (some (version 2)) 25 desk reported
      refl

never : (n : ℕ) (e : Exn) (v : Desk) → (quarter.traffic n v).0 ≡ throws e → is_adaptation e ≡ true
never n e v h = no_raise reported e h

abbrev half_wanted : Wanted
half_wanted = wanted (version 1) (some (version 2)) 50

abbrev quarter_clock : SplitClock desk_systems quarter deployer 40 half_wanted
quarter_clock = record {
  traffic_clock = λ n v. omega arith;
  traffic_raises = never;
  sleeps = λ s v. refl;
}

read_back_split-EndsBy_example :
    EndsBy desk_systems quarter deployer 40 half_wanted
      (desk_systems.clock desk + deployer.timeout_s)
      (read_back_split desk_systems quarter deployer 40 half_wanted desk)
read_back_split-EndsBy_example =
    read_back_split-EndsBy desk_systems quarter deployer 40 half_wanted desk_laws quarter_clock desk
      (omega arith)
