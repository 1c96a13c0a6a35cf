-- ===== src/Tests/Servers.antt =====
-- Requests to the bootstrap server and a daemon that refuses to create containers.
use scalability_engineering.Prelude.{
  ℕ, zero, suc, ◌≡◌, refl, false, Option, none, some, List, [], ◌∷◌, String, pos,
}
use scalability_engineering.PriorityQueue.Subset.Rejection.{Settles}
use scalability_engineering.Tests.Queues.{counting, counting-IsServed}
use scalability_engineering.ClientManager.{ClientIdentity}
use scalability_engineering.Handlers.{Request, Parsers}
use scalability_engineering.Client.Exchange.{Queryable}
use scalability_engineering.Bootstrap.{connect_handler}
use scalability_engineering.Bootstrap.Joining.{Welcome, connect_handler-Welcome}
use scalability_engineering.Bootstrap.Docker.{
  Docker, ContainerManager, ended, not_found, bulk_create_clients, remove_all_clients,
}
use scalability_engineering.Bootstrap.Docker.Scope.{Removals, remove_all_clients-Removals}
use scalability_engineering.Bootstrap.Containers.{bulk_create_clients_handler}
use scalability_engineering.Bootstrap.Containers.Bulk.{Bulk}
use scalability_engineering.Tests.Managers.{manager, manager-Good, queries, cleo, parsers}

abbrev unmarshal : String → Option ClientIdentity
unmarshal body = some cleo

abbrev joining : Request
joining = record { method = "POST"; form = none; body = some "cleo" }

connect_handler-Welcome_example :
    Settles
      (Welcome Queryable manager queries unmarshal joining (pos 20))
      (λ fuel. connect_handler unmarshal fuel counting manager queries joining (pos 20))
connect_handler-Welcome_example =
    connect_handler-Welcome Queryable manager queries unmarshal counting joining (pos 20)
      manager-Good (λ count h. counting-IsServed count (pos 5))

abbrev nat_daemon : Docker ℕ
nat_daemon = record {
  container_list = λ d. some (
      record { id = "1"; names = "/p-client-x" ∷ []; status = "Up"; created = pos 1 }
      ∷ record { id = "2"; names = "/p-bootstrap" ∷ []; status = "Up"; created = pos 1 }
      ∷ []);
  container_inspect = λ d id. some ("32768" ∷ []);
  image_list = λ d. none;
  container_create = λ d c. (d, none);
  container_start = λ d id. (d, false);
  container_stop = λ d name. (d, not_found);
  container_remove = λ d name. (suc d, ended);
}

abbrev project : ContainerManager
project = record { project_name = "p"; project = none }

remove_all_clients-Removals_example :
    Removals nat_daemon project 0 (remove_all_clients nat_daemon project (λ names. names) 0).0
remove_all_clients-Removals_example =
    remove_all_clients-Removals nat_daemon project (λ names. names) 0 (λ names i name e. (i, e))

-- One container is removed.
one_removed : (remove_all_clients nat_daemon project (λ names. names) 0).0 ≡ 1
unfolding remove_all_clients
one_removed = refl

abbrev repeat : ℕ → List (Option String)
repeat zero = []
repeat (suc n) = some "x" ∷ repeat n

abbrev bulk : Request
bulk = record { method = "POST"; form = some (λ key. "2"); body = none }

-- Every text is the number 2 for these.
abbrev twos : Parsers
twos = record parsers { atoi = λ s. some (pos 2) }

-- No client is created, and the answer is 200.
unnoticed : (bulk_create_clients_handler nat_daemon twos repeat (some project) 0 bulk).1 ≡ 200
unfolding bulk_create_clients_handler bulk_create_clients
unnoticed = refl
