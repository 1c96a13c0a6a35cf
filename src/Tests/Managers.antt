-- ===== src/Tests/Managers.antt =====
-- A client's manager that knows two clients, and the theorems on ClientManager, the handlers and the
-- client at it.
use scalability_engineering.Prelude.{
  ℕ, ◌≢◌, refl, ap, ◌∙◌, Bool, true, false, none, some, List, [], ◌∷◌, String, string_discrete,
  str_eq_iff, Returns, pos, arith, ◌-ℤ◌,
}
use scalability_engineering.Prelude.GoMap.{empty, insert, lookup, size}
use scalability_engineering.Index.{IsIndex-empty}
use scalability_engineering.Index.Grow.{IsIndex-concat}
use scalability_engineering.PriorityQueue.Validate.{validate, IsValid_of_validate}
use scalability_engineering.ClientManager
use scalability_engineering.ClientManager.{ClientIdentity, ClientManager, ClientManagerConfig}
use scalability_engineering.ClientManager.Invariant.{IsValid, IsCoherent, clients}
use scalability_engineering.ClientManager.Register
use scalability_engineering.ClientManager.Health
use scalability_engineering.ClientManager.Cleanup
use scalability_engineering.ClientManager.Upkeep
use scalability_engineering.ClientManager.Discover
use scalability_engineering.PriorityQueue.Subset.Rejection
use scalability_engineering.Handlers
use scalability_engineering.Handlers.{Request, Parsers, Event}
use scalability_engineering.Handlers.Safe
use scalability_engineering.Client.{Client, QueryQueue, on_add, on_remove}
use scalability_engineering.Client.Exchange.{Queryable, on_add-Keeps, on_remove-Keeps}
use scalability_engineering.Tests.Maps.{saved, two_index}
use scalability_engineering.Tests.Queues.{three, three-IsValid, counting, counting-IsServed}

abbrev ann : ClientIdentity
ann = record { name = "Ann"; container_id = "a"; hostname = "host_a" }

abbrev bob : ClientIdentity
bob = record { name = "Bob"; container_id = "b"; hostname = "" }

abbrev pub cleo : ClientIdentity
cleo = record { name = "Cleo"; container_id = "c"; hostname = "host_c" }

abbrev config : ClientManagerConfig QueryQueue
config = record {
  timeout = pos 5000;
  max_age = pos 10000;
  min_age = pos 2000;
  health_check_interval = pos 1000;
  cleanup_interval = pos 3000;
  subset_size = pos 5;
  persistence_config = saved;
  add_callback = some on_add;
  remove_callback = some on_remove;
}

-- Ann was alive at 3; Bob is known, but not queued.
abbrev pub manager : ClientManager QueryQueue
manager = record {
  hash_map = record {
    index_map = two_index;
    keys = "a" ∷ "b" ∷ [];
    values = ann ∷ bob ∷ [];
    persistence = saved;
    pending = 0;
    stopped = false;
    current_version = 4;
  };
  priority_queue = record {
    priorities = pos 3 ∷ [];
    values = "a" ∷ [];
    index_map = insert string_discrete "a" 0 empty;
  };
  config = config;
  add_callback = some on_add;
  remove_callback = some on_remove;
  workers_running = true;
  generation = 1;
}

abbrev pub queries : QueryQueue
queries = record { sequence_counter = pos 9; query_queue = three }

manager-IsValid : IsValid manager
unfolding validate lookup insert size string_discrete
manager-IsValid = record {
  map = record {
    paired = refl;
    index =
        IsIndex-concat {A = ℕ} string_discrete
          (IsIndex-concat {A = ℕ} string_discrete (IsIndex-empty string_discrete) [] refl "a" refl)
          (0 ∷ []) refl "b" refl;
  };
  queue = IsValid_of_validate string_discrete manager.priority_queue refl;
}

manager-IsCoherent : IsCoherent manager
unfolding lookup insert string_discrete
manager-IsCoherent = record {
  known = λ id q e. elim (string_discrete "a" id) [
    | yes f ↦ absurd (ground (arith, ap (clients manager) f ∙ e))
    | no n ↦ q (ground arith)
  ];
  named = λ id c e. elim (string_discrete "a" id) [
    | yes f ↦ ground (arith, ap (clients manager) f ∙ e)
    | no n ↦ elim (string_discrete "b" id) [
      | yes f ↦ ground (arith, ap (clients manager) f ∙ e)
      | no m ↦ absurd (ground arith)
    ]
  ];
}

pub manager-Good : ClientManager.Upkeep.Good Queryable manager queries
manager-Good = record {
  valid = manager-IsValid;
  coherent = manager-IsCoherent;
  adds = on_add-Keeps;
  removes = on_remove-Keeps;
  kept = three-IsValid;
  configured_add = refl;
  configured_remove = refl;
}

has_id : cleo.container_id ≢ ""
has_id e = absurd (ground (arith, str_eq_iff "c" ""))

has_name : cleo.name ≢ ""
has_name e = absurd (ground (arith, str_eq_iff "Cleo" ""))

add_client-Registered_example :
    Returns
      (ClientManager.Register.Registered Queryable manager queries cleo (pos 12))
      (ClientManager.add_client manager queries cleo (pos 12))
add_client-Registered_example =
    ClientManager.Register.add_client-Registered Queryable manager queries cleo (pos 12)
      manager-IsValid on_add-Keeps three-IsValid has_id has_name

remove_client-Unregistered_example :
    Returns
      (ClientManager.Register.Unregistered Queryable manager queries "a")
      (ClientManager.remove_client manager queries "a")
remove_client-Unregistered_example =
    ClientManager.Register.remove_client-Unregistered Queryable manager queries "a" manager-IsValid
      on_remove-Keeps three-IsValid

nobody_answers : String → Bool
nobody_answers host = false

check_client-Checked_example :
    Returns
      (ClientManager.Health.Checked Queryable manager queries "a"
        (pos 9)
        (ClientManager.Health.verdict nobody_answers manager "a" (pos 8)))
      (ClientManager.check_client nobody_answers manager queries "a" (pos 8) (pos 9))
check_client-Checked_example =
    ClientManager.Health.check_client-Checked Queryable nobody_answers manager queries "a"
      manager-IsValid on_add-Keeps on_remove-Keeps three-IsValid (pos 8) (pos 9)

cleanup-Cleaned_example :
    Returns
      (ClientManager.Cleanup.Cleaned Queryable
        (pos 50 -ℤ ClientManager.microseconds manager.config.max_age)
        manager
        queries)
      (ClientManager.cleanup manager queries (pos 50))
cleanup-Cleaned_example =
    ClientManager.Cleanup.cleanup-Cleaned Queryable manager queries (pos 50) manager-IsValid
      on_remove-Keeps three-IsValid

-- No text is a duration or a number, and a body is its own id.
abbrev pub parsers : Parsers
parsers = record {
  parse_duration = λ t. none;
  atoi = λ t. none;
  unmarshal = λ body. some λ key. some body;
}

abbrev removal : Request
removal = record { method = "POST"; form = none; body = some "a" }

manager-IsPaced : ClientManager.Upkeep.IsPaced config
manager-IsPaced = record { health_check = omega arith; cleanup = omega arith }

serve-Good_example :
    Returns
      (Handlers.Safe.Fine Queryable parsers manager queries manager-Good manager-IsPaced)
      (Handlers.serve parsers manager queries Handlers.remove_client removal (pos 8))
serve-Good_example =
    Handlers.Safe.serve-Good Queryable parsers manager queries manager-Good manager-IsPaced
      Handlers.remove_client removal (pos 8) tt

-- Every text is a duration of 5 for these.
abbrev fives : Parsers
fives = record parsers { parse_duration = λ s. some (pos 5) }

abbrev settings : Request
settings = record { method = "POST"; form = some (λ key. "5s"); body = none }

settings-IsTimed : Handlers.Safe.IsTimed Queryable fives settings
settings-IsTimed value e = (λ d p. ground arith, λ d p. ground arith)

abbrev day : List Event
day =
    Handlers.request Handlers.update_config settings (pos 7)
    ∷ Handlers.request Handlers.start_workers removal (pos 7)
    ∷ Handlers.check "a" (pos 8) (pos 9)
    ∷ Handlers.request Handlers.remove_client removal (pos 10)
    ∷ Handlers.clean (pos 50)
    ∷ []

handle_all-Good_example :
    Returns
      (λ a. ClientManager.Upkeep.Good Queryable a.0 a.1)
      (Handlers.handle_all fives nobody_answers manager queries day)
handle_all-Good_example =
    Handlers.Safe.handle_all-Good Queryable fives nobody_answers day manager queries manager-Good
      manager-IsPaced (settings-IsTimed, (tt, (tt, (tt, (tt, tt)))))

abbrev pub dora : Client
dora = record {
  identity = record { name = "Dora"; container_id = "d"; hostname = "host_d" };
  connected = false;
  connection_error = "";
  auto_connect = true;
  max_retries = pos 3;
  manager = manager;
  queries = queries;
}

get_random_subset-Told_example :
    Rejection.Settles
      (ClientManager.Discover.Told manager manager-IsValid manager-IsCoherent 1)
      (λ fuel. ClientManager.get_random_subset fuel counting manager none)
get_random_subset-Told_example =
    ClientManager.Discover.get_random_subset-Told manager manager-IsValid manager-IsCoherent
      counting none (counting-IsServed 1 (pos 5))
